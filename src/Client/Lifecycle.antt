-- ===== src/Client/Lifecycle.antt =====
-- client.go: `Connect`, `Close`, the registration with a BBMD, and one turn of `receiver`.
use bacnet_go.Base.{
  ℕ, ◌/◌, ◌%◌, ◌^◌, true, List, [], ◌∷◌, ◌++◌, Option, none, some, if◌then◌else◌, length,
}
use bacnet_go.Base.Map
use bacnet_go.Base.Map.{lookup}
use bacnet_go.Client.{Client, Channel, ConnectionState, disconnected, connecting, connected}
use bacnet_go.Client.Receive.{handle_packet}
use bacnet_go.Errors.{Error, sentinel, wrapped, already_connected, open_transport, close_transport}
use bacnet_go.Go.{Result, ok, err, panic, ◌>>=◌, put_uint16}
use bacnet_go.Metrics.{inc, add}
use bacnet_go.Wire.Bvlc.{bacnet_ip, register_foreign_device}

-- `CompareAndSwap` of the state, the opening of the transport, whose outcome is `opened`, and the
-- end of the switch to connected. A registration that fails is logged only.
connected_or : Option Error → Client → Client × Option Error
connected_or (some e) c = (
  record c {
    state = disconnected;
    metrics = record c.metrics { connect_failures = inc c.metrics.connect_failures };
  },
  some (wrapped open_transport e),
)
connected_or none c = (
  record c {
    state = connected;
    metrics = record c.metrics { connect_successes = inc c.metrics.connect_successes };
  },
  none,
)

unfoldable pub attempt : ConnectionState → Option Error → Client → Client × Option Error
unfolding connected_or
attempt disconnected opened c = connected_or opened (record c {
  state = connecting;
  metrics = record c.metrics { connect_attempts = inc c.metrics.connect_attempts };
})
attempt connecting opened c = (c, some (sentinel already_connected))
attempt connected opened c = (c, some (sentinel already_connected))

unfoldable pub connect : Option Error → Client → Client × Option Error
connect opened c = attempt c.state opened c

-- The datagram of `registerForeignDevice`; the TTL is given in nanoseconds, and sent in whole seconds.
-- Past 65535 seconds Go leaves the conversion to the platform, and the low 16 bits stand for it here.
unfoldable pub register_foreign_device_packet : ℕ → List ℕ
register_foreign_device_packet ttl =
    bacnet_ip ∷ register_foreign_device ∷ put_uint16 6 ++ put_uint16 (ttl / 10 ^ 9 % 2 ^ 16)

-- `close(ch)`, which panics for a nil or a closed channel, and the loop over the pending requests.
close_channel : ℕ → Option Channel → List (ℕ × Channel) → Result (List (ℕ × Channel))
close_channel ref none channels = panic
close_channel ref (some ch) channels =
    if ch.closed then panic else ok (Map.insert ref (record ch { closed = true }) channels)

unfoldable pub close_channels : List (ℕ × ℕ) → List (ℕ × Channel) → Result (List (ℕ × Channel))
unfolding close_channel
close_channels [] channels = ok channels
close_channels ((id, ref) ∷ pending) channels = do
  closed ← close_channel ref (lookup ref channels) channels
  close_channels pending closed

-- What `transport.Close` answers.
closed_transport : Option Error → Option Error
closed_transport none = none
closed_transport (some e) = some (wrapped close_transport e)

unfoldable pub shut : Option Error → Client → Result (Client × Option Error)
unfolding closed_transport
shut closed c = do
  channels ← close_channels c.pending c.channels
  ok (
    record c {
      state = disconnected;
      channels = channels;
      pending = [];
      metrics = record c.metrics { disconnects = inc c.metrics.disconnects };
    },
    closed_transport closed,
  )

unfoldable pub close_from : ConnectionState → Option Error → Client → Result (Client × Option Error)
close_from disconnected closed c = ok (c, none)
close_from connecting closed c = shut closed c
close_from connected closed c = shut closed c

-- `Close`, once the receiver and the packets that it handles have ended.
unfoldable pub close : Option Error → Client → Result (Client × Option Error)
close closed c = close_from c.state closed c

-- A datagram in `receiver`: it is counted, and handled in a goroutine that recovers from a panic.
recovered : Client → Result Client → Client
recovered c (ok c') = c'
recovered c (err e) = c
recovered c panic = record c {
  metrics = record c.metrics { panics_recovered = inc c.metrics.panics_recovered };
}

unfoldable pub receive_datagram : ℕ → List ℕ → List ℕ → Client → Client
unfolding recovered
receive_datagram now bytes sender c =
    let counted = record c {
      metrics = record c.metrics {
        bytes_received = add (length bytes) c.metrics.bytes_received;
        last_activity = now;
      };
    } in
    recovered counted (handle_packet bytes sender counted)
