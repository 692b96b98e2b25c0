-- ===== src/Transport/Reopen.antt =====
-- A transport that has been closed, and the error of `Send`.
use bacnet_go.Base.{
  ℕ, ◌≡◌, ◌↔◌, refl, true, false, List, Option, none, some, ◌⊎◌, inl, inr, length, arith,
}
use bacnet_go.Errors.{Error}
use bacnet_go.Transport.{
  Net, UdpTransport, write, written, open_transport, close_transport, deadline_or, send,
}

module _ {W Conn Addr : Type 0} (net : Net W Conn Addr) where
  -- The package refuses a connection that it has closed, `net.ErrClosed`.
  abbrev pub RefusesClosed : Type 0
  RefusesClosed =
      (conn : Conn) (w : W) (deadline : ℕ)
      → (e : Error) × ((net.set_write_deadline conn deadline (net.close conn w).0).1 ≡ some e)

  write_refused :
      (conn : Conn) (addr : Addr) (bytes : List ℕ) (reply : W × Option Error) (e : Error)
      → reply.1 ≡ some e
      → (e' : Error) × ((write net conn addr bytes reply).1 ≡ some e')
  unfolding write
  write_refused conn addr bytes (w, some e0) e h = (_, refl)
  write_refused conn addr bytes (w, none) e h = ground arith

  written_succeeds :
      (bytes : List ℕ) (reply : W × (Error ⊎ ℕ))
      → ((written net bytes reply).1 ≡ none)
        ↔ ((◌≡◌ {A = Option Error} none none) × (reply.1 ≡ inr (length bytes)))
  unfolding written
  written_succeeds bytes (w, inl e) = ground arith
  written_succeeds bytes (w, inr n) = ground arith

  write_succeeds :
      (conn : Conn) (addr : Addr) (bytes : List ℕ) (reply : W × Option Error)
      → ((write net conn addr bytes reply).1 ≡ none)
        ↔ ((reply.1 ≡ none) × ((net.write_to_udp conn bytes addr reply.0).1 ≡ inr (length bytes)))
  unfolding write
  write_succeeds conn addr bytes (w, some e) = ground arith
  write_succeeds conn addr bytes (w, none) =
      written_succeeds bytes (net.write_to_udp conn bytes addr w)

  -- `Open` of a transport that was open and has been closed reports no error, changes nothing, and
  -- leaves it closed: each `Send` on it fails, if the package refuses a closed connection.
  pub open_transport-close_transport :
      (t : UdpTransport Conn) (w : W) (conn : Conn)
      → t.conn ≡ some conn
      → t.closed ≡ false
      → RefusesClosed
      → let ((w1, t1), e1) = close_transport net t w in
        let ((w2, t2), e2) = open_transport net t1 w1 in
        (e2 ≡ none)
        × (t2 ≡ t1)
        × (t2.closed ≡ true)
        × ((deadline : Option ℕ) (addr : Addr) (bytes : List ℕ)
            → (e : Error) × ((send net deadline addr bytes t2 w2).1 ≡ some e))
  unfolding open_transport close_transport send
  open_transport-close_transport t w conn h k refuses =
      rw (h, k)
        (
          refl,
          refl,
          refl,
          λ deadline addr bytes.
              let (e, refused) =
                refuses conn w (deadline_or net deadline t.write_timeout (net.close conn w).0) in
              write_refused conn addr bytes _ e refused,
        )

  -- `Send` on an open transport reports no error exactly when the package takes the deadline and
  -- writes every byte.
  pub send_succeeds :
      (t : UdpTransport Conn) (w : W) (conn : Conn) (deadline : Option ℕ) (addr : Addr)
      (bytes : List ℕ)
      → t.conn ≡ some conn
      → let (w1, refused) =
          net.set_write_deadline conn (deadline_or net deadline t.write_timeout w) w in
        let written = net.write_to_udp conn bytes addr w1 in
        ((send net deadline addr bytes t w).1 ≡ none)
        ↔ ((refused ≡ none) × (written.1 ≡ inr (length bytes)))
  unfolding send
  send_succeeds t w conn deadline addr bytes h = rw h (write_succeeds conn addr bytes _)
