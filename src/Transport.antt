-- ===== src/Transport.antt =====
-- internal/transport/udp.go: the UDP transport. The functions of the net package, and the clock,
-- are the record `Net`; `W` is the state of the operating system that they act on.
pub mod Reopen
use bacnet_go.Base.{
  ℕ, ◌+◌, Bool, true, false, List, [], ◌∷◌, Option, none, some, ◌⊎◌, inl, inr, ◌==◌, if◌then◌else◌,
  length,
}
use bacnet_go.Errors.{
  Error, plain, wrapped, resolve_local_address, listen_udp, transport_not_open, set_write_deadline,
  set_read_deadline, write_udp, partial_write,
}

-- A socket, an address, and what the package answers: an error or a value. A time is a number of
-- nanoseconds.
pub record Net (W Conn Addr : Type 0) : Type 1 where
  pub now : W → ℕ
  pub resolve_udp_addr : List ℕ → W → Error ⊎ Addr
  pub listen_udp : Option Addr → W → W × (Error ⊎ Conn)
  pub close : Conn → W → W × Option Error
  pub set_write_deadline : Conn → ℕ → W → W × Option Error
  pub set_read_deadline : Conn → ℕ → W → W × Option Error
  pub write_to_udp : Conn → List ℕ → Addr → W → W × (Error ⊎ ℕ)
  pub read_from_udp : Conn → ℕ → W → W × (Error ⊎ (List ℕ × Addr))
  pub broadcast_address : ℕ → Addr

pub record UdpTransport (Conn : Type 0) : Type 0 where
  pub local_addr : List ℕ
  pub conn : Option Conn
  pub read_timeout : ℕ
  pub write_timeout : ℕ
  pub closed : Bool

-- `3 * time.Second`
abbrev three_seconds : ℕ
three_seconds = 3000000000

module _ {Conn : Type 0} where
  abbrev pub new_udp_transport : List ℕ → UdpTransport Conn
  new_udp_transport local_addr = record {
    local_addr = local_addr;
    conn = none;
    read_timeout = three_seconds;
    write_timeout = three_seconds;
    closed = false;
  }

  abbrev pub set_read_timeout : ℕ → UdpTransport Conn → UdpTransport Conn
  set_read_timeout d t = record t { read_timeout = d }

  abbrev pub set_write_timeout : ℕ → UdpTransport Conn → UdpTransport Conn
  set_write_timeout d t = record t { write_timeout = d }

  abbrev pub is_closed : UdpTransport Conn → Bool
  is_closed t = t.closed

module _ {W Conn Addr : Type 0} (net : Net W Conn Addr) where
  -- `Open`: a transport that has a connection is open already.
  listened : UdpTransport Conn → W × (Error ⊎ Conn) → (W × UdpTransport Conn) × Option Error
  listened t (w, inl e) = ((w, t), some (wrapped listen_udp e))
  listened t (w, inr conn) = ((w, record t { conn = some conn; closed = false }), none)

  listen_at : UdpTransport Conn → W → Error ⊎ Addr → (W × UdpTransport Conn) × Option Error
  unfolding listened
  listen_at t w (inl e) = ((w, t), some (wrapped resolve_local_address e))
  listen_at t w (inr addr) = listened t (net.listen_udp (some addr) w)

  open_fresh : List ℕ → UdpTransport Conn → W → (W × UdpTransport Conn) × Option Error
  unfolding listen_at
  open_fresh [] t w = listened t (net.listen_udp none w)
  open_fresh (x ∷ xs) t w = listen_at t w (net.resolve_udp_addr (x ∷ xs) w)

  unfoldable pub open_transport : UdpTransport Conn → W → (W × UdpTransport Conn) × Option Error
  unfolding open_fresh
  open_transport t w = elim t.conn [
    | some conn ↦ ((w, t), none)
    | none ↦ open_fresh t.local_addr t w
  ]

  -- `Close` closes the connection once, and keeps it.
  closing : UdpTransport Conn → W × Option Error → (W × UdpTransport Conn) × Option Error
  closing t (w, e) = ((w, record t { closed = true }), e)

  unfoldable pub close_transport : UdpTransport Conn → W → (W × UdpTransport Conn) × Option Error
  unfolding closing
  close_transport t w = elim t.conn [
    | none ↦ ((w, t), none)
    | some conn ↦ if t.closed then ((w, t), none) else closing t (net.close conn w)
  ]

  -- The deadline of the context, or the timeout from now.
  abbrev pub deadline_or : Option ℕ → ℕ → W → ℕ
  deadline_or (some deadline) timeout w = deadline
  deadline_or none timeout w = net.now w + timeout

  -- `Send`
  unfoldable pub written : List ℕ → W × (Error ⊎ ℕ) → W × Option Error
  written bytes (w, inl e) = (w, some (wrapped write_udp e))
  written bytes (w, inr n) =
      (w, (if n == length bytes then none else some (plain (partial_write n (length bytes)))))

  unfoldable pub write : Conn → Addr → List ℕ → W × Option Error → W × Option Error
  write conn addr bytes (w, some e) = (w, some (wrapped set_write_deadline e))
  write conn addr bytes (w, none) = written bytes (net.write_to_udp conn bytes addr w)

  unfoldable pub send : Option ℕ → Addr → List ℕ → UdpTransport Conn → W → W × Option Error
  send deadline addr bytes t w = elim t.conn [
    | none ↦ (w, some (plain transport_not_open))
    | some conn ↦
        write conn addr bytes
          (net.set_write_deadline conn (deadline_or deadline t.write_timeout w) w)
  ]

  unfoldable pub broadcast : Option ℕ → ℕ → List ℕ → UdpTransport Conn → W → W × Option Error
  broadcast deadline port bytes t w = send deadline (net.broadcast_address port) bytes t w

  -- `Receive`, with a buffer of 1500 bytes.
  read : Conn → W × Option Error → W × (Error ⊎ (List ℕ × Addr))
  read conn (w, some e) = (w, inl (wrapped set_read_deadline e))
  read conn (w, none) = net.read_from_udp conn 1500 w

  unfoldable pub receive : Option ℕ → UdpTransport Conn → W → W × (Error ⊎ (List ℕ × Addr))
  unfolding read
  receive deadline t w = elim t.conn [
    | none ↦ (w, inl (plain transport_not_open))
    | some conn ↦ read conn (net.set_read_deadline conn (deadline_or deadline t.read_timeout w) w)
  ]

  -- `ReceiveWithTimeout`: a context with that timeout.
  unfoldable pub receive_with_timeout : ℕ → UdpTransport Conn → W → W × (Error ⊎ (List ℕ × Addr))
  receive_with_timeout timeout t w = receive (some (net.now w + timeout)) t w
