-- ===== src/Client/World/Isolation/Few.antt =====
-- A client gives out no invoke id twice among the first 255 that it draws from its counter.
use bacnet_go.Base.{
  ℕ, ◌+◌, ◌%◌, ◌^◌, ◌≤◌, ◌<◌, ◌≡◌, refl, ◌∙◌, List, ◌∷◌, ◌++◌, Option, none, some, All, arith,
}
use bacnet_go.Base.Bits.{bit_and_low}
use bacnet_go.Client.{Client, ConnectionState, disconnected, connecting, connected, register_device}
use bacnet_go.Client.Lifecycle.{attempt, connect, close_channels, close_from, shut, close}
use bacnet_go.Client.Request.{
  Call, Wait, context_done, answer, channel_closed, open_request, next_invoke_id, sent, release,
  finish_request,
}
use bacnet_go.Client.Request.Reply.{call_of, opened}
use bacnet_go.Client.World.{
  World, new_world, Step, connects, begins, draws, sends, fails, receives, finishes, times_out,
  registers, closes, Reach, here, next,
}
use bacnet_go.Client.World.Invariant.{IsOrderly, IsOrderly-IsSafe, close_channels-Succeeds}
use bacnet_go.Client.World.Isolation.{HasOther, All-remove, All-map}
use bacnet_go.Client.World.Isolation.Steps.{GivesFreshId, GivesFreshIds}
use bacnet_go.Client.World.Reachable.{
  IsSound, new_world-IsSound, Reach-IsSound, receive_datagram-After,
}
use bacnet_go.Errors.{Error}
use bacnet_go.Go.{Succeeds, Succeeds->>=, Any}

-- The ids that a run draws from the counter: one for each request, and one more for each
-- subscription.
abbrev count : {w v : World} → Step w v → ℕ → ℕ
count (begins w service payload) n = n + 1
count (draws w) n = n + 1
count (connects w opened) n = n
count (sends c before after call) n = n
count (fails c before after call e) n = n
count (receives w now bytes sender) n = n
count (finishes c before after call wait ns e) n = n
count (times_out c before after call ns) n = n
count (registers w d) n = n
count (closes w closed c e eq) n = n

abbrev drawn : {w v : World} → Reach w v → ℕ
drawn here = 0
drawn (next r step) = count step (drawn r)

abbrev IsNumbered : ℕ → Call → Type 0
IsNumbered n call = (1 ≤ call.invoke_id) × (call.invoke_id ≤ n)

-- The counter is the number of ids drawn, and the ids of the calls lie below it.
record Counts (n : ℕ) (w : World) : Type 0 where
  counter : w.client.invoke_id ≡ n
  numbered : All (IsNumbered n) w.calls

attempt-invoke_id :
    (s : ConnectionState) (opened : Option Error) (c : Client)
    → (attempt s opened c).0.invoke_id ≡ c.invoke_id
unfolding attempt
attempt-invoke_id disconnected (some e) c = refl
attempt-invoke_id disconnected none c = refl
attempt-invoke_id connecting opened c = refl
attempt-invoke_id connected opened c = refl

shut-invoke_id :
    (closed : Option Error) (c : Client)
    → IsOrderly c
    → Succeeds (shut closed c) (λ r. r.0.invoke_id ≡ c.invoke_id)
unfolding shut
shut-invoke_id closed c h =
    Succeeds->>= (close_channels c.pending c.channels) _ Any _
      (close_channels-Succeeds c.pending c.channels h.waits) λ channels _. refl

close_from-invoke_id :
    (s : ConnectionState) (closed : Option Error) (c : Client)
    → IsOrderly c
    → Succeeds (close_from s closed c) (λ r. r.0.invoke_id ≡ c.invoke_id)
unfolding close_from
close_from-invoke_id disconnected closed c h = refl
close_from-invoke_id connecting closed c h = shut-invoke_id closed c h
close_from-invoke_id connected closed c h = shut-invoke_id closed c h

close-invoke_id :
    (closed : Option Error) (c : Client)
    → IsOrderly c
    → Succeeds (close closed c) (λ r. r.0.invoke_id ≡ c.invoke_id)
unfolding close
close-invoke_id closed c h = close_from-invoke_id c.state closed c h

finish_request-invoke_id :
    (call : Call) (wait : Wait) (ns : ℕ) (c : Client)
    → (finish_request call wait ns c).0.invoke_id ≡ c.invoke_id
unfolding finish_request release
finish_request-invoke_id call context_done ns c = refl
finish_request-invoke_id call channel_closed ns c = refl
finish_request-invoke_id call (answer apdu) ns c = refl

call_of-invoke_id :
    (service : ℕ) (payload : List ℕ) (c : Client)
    → c.invoke_id < 255
    → ((call_of service payload c).invoke_id ≡ c.invoke_id + 1)
      × ((opened service payload c).invoke_id ≡ c.invoke_id + 1)
unfolding open_request next_invoke_id
call_of-invoke_id service payload c h = ground (arith, bit_and_low 8 ((c.invoke_id + 1) % 2 ^ 32))

begins-Counts :
    (w : World) (service : ℕ) (payload : List ℕ) (n : ℕ)
    → Counts n w
    → n + 1 ≤ 255
    → All (HasOther (call_of service payload w.client).invoke_id) w.calls
      × Counts (n + 1) (record {
        client = opened service payload w.client;
        calls = call_of service payload w.client ∷ w.calls;
      })
begins-Counts w service payload n h bound =
    let (id, counter) = call_of-invoke_id service payload w.client (omega (arith, h.counter)) in
    (
      All-map (IsNumbered n) _ w.calls (λ call k same. omega (arith, same, id, h.counter, k))
          h.numbered,
      record {
        counter = omega (arith, counter, h.counter);
        numbered = (
          (omega (arith, id), omega (arith, id, h.counter)),
          All-map (IsNumbered n) (IsNumbered (n + 1)) w.calls (λ call k. (k.0, omega (arith, k)))
              h.numbered,
        );
      },
    )

draws-Counts :
    (w : World) (n : ℕ)
    → Counts n w
    → n + 1 ≤ 255
    → Counts (n + 1) (record w { client = (next_invoke_id w.client).0 })
unfolding next_invoke_id
draws-Counts w n h bound = record {
  counter = omega (arith, h.counter, bound);
  numbered =
      All-map (IsNumbered n) (IsNumbered (n + 1)) w.calls (λ call k. (k.0, omega (arith, k)))
        h.numbered;
}

-- A call that ends.
ends-Counts :
    (n : ℕ) (c c' : Client) (before after : List Call) (call : Call)
    → c'.invoke_id ≡ c.invoke_id
    → Counts n (record { client = c; calls = before ++ (call ∷ after) })
    → Counts n (record { client = c'; calls = before ++ after })
ends-Counts n c c' before after call e h = record {
  counter = e ∙ h.counter;
  numbered = (All-remove (IsNumbered n) before after call h.numbered).1;
}

same-Counts :
    (n : ℕ) (w : World) (c' : Client)
    → c'.invoke_id ≡ w.client.invoke_id
    → Counts n w
    → Counts n (record w { client = c' })
same-Counts n w c' e h = record { counter = e ∙ h.counter; numbered = h.numbered }

Step-Counts :
    {w v : World} (step : Step w v) (n : ℕ)
    → IsSound w
    → Counts n w
    → count step n ≤ 255
    → GivesFreshId step × Counts (count step n) v
Step-Counts (begins w service payload) n sound h bound = begins-Counts w service payload n h bound
Step-Counts (draws w) n sound h bound = (tt, draws-Counts w n h bound)
Step-Counts (connects w opened) n sound h bound =
    (tt, same-Counts n w _ (unfold connect in attempt-invoke_id w.client.state opened w.client) h)
Step-Counts (sends c before after call) n sound h bound = (
  tt,
  same-Counts n (record { client = c; calls = before ++ (call ∷ after) }) _ (unfold sent in refl) h,
)
Step-Counts (fails c before after call e) n sound h bound =
    (tt, ends-Counts n c _ before after call (unfold sent release in refl) h)
Step-Counts (receives w now bytes sender) n sound h bound =
    let (_, _, id, _, _, _, _, _, _, _) =
      receive_datagram-After now bytes sender w.client (IsOrderly-IsSafe w.client sound.orderly) in
    (tt, same-Counts n w _ id h)
Step-Counts (finishes c before after call wait ns e) n sound h bound =
    (tt, ends-Counts n c _ before after call (finish_request-invoke_id call wait ns c) h)
Step-Counts (times_out c before after call ns) n sound h bound =
    (tt, ends-Counts n c _ before after call (finish_request-invoke_id call context_done ns c) h)
Step-Counts (registers w d) n sound h bound =
    (tt, same-Counts n w _ (unfold register_device in refl) h)
Step-Counts (closes w closed c e eq) n sound h bound =
    (tt, same-Counts n w c (rw eq at (close-invoke_id closed w.client sound.orderly)) h)

count-le : {w v : World} (step : Step w v) (n : ℕ) → n ≤ count step n
count-le (begins w service payload) n = omega arith
count-le (draws w) n = omega arith
count-le (connects w opened) n = omega arith
count-le (sends c before after call) n = omega arith
count-le (fails c before after call e) n = omega arith
count-le (receives w now bytes sender) n = omega arith
count-le (finishes c before after call wait ns e) n = omega arith
count-le (times_out c before after call ns) n = omega arith
count-le (registers w d) n = omega arith
count-le (closes w closed c e eq) n = omega arith

Reach-Counts :
    {w : World} (r : Reach new_world w) → drawn r ≤ 255 → GivesFreshIds r × Counts (drawn r) w
Reach-Counts here bound = (tt, record { counter = refl; numbered = tt })
Reach-Counts (next r step) bound =
    let (fresh, counts) = Reach-Counts r (omega (arith, bound, count-le step (drawn r))) in
    let (fresh', counts') =
      Step-Counts step (drawn r) (Reach-IsSound new_world-IsSound r) counts bound in
    ((fresh, fresh'), counts')

-- In every run from a new client that draws at most 255 ids from its counter, one for each request
-- and one more for each subscription, no invoke id is given out while a call waits under it,
-- whatever else happens in whatever order.
pub Reach-GivesFreshIds : (w : World) (r : Reach new_world w) → drawn r ≤ 255 → GivesFreshIds r
Reach-GivesFreshIds w r bound = (Reach-Counts r bound).0
