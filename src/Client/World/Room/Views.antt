-- ===== src/Client/World/Room/Views.antt =====
-- How the parts of the code move the waiting room that a client's calls make up.
use bacnet_go.Base.{ℕ, ◌≡◌, refl, ap, List, [], ◌∷◌, ◌++◌, map, Option, none, All, arith}
use bacnet_go.Base.Map.{lookup}
use bacnet_go.Client.{Client}
use bacnet_go.Client.Request.{Call, Wait, receive}
use bacnet_go.Client.World.Isolation.{HasOther}
use bacnet_go.Client.World.Room.{Room}

-- A call as the waiting room has it, and the whole room.
abbrev pub view_call : Client → Call → ℕ × Option Wait
view_call c call = (call.invoke_id, receive call c)

abbrev pub view : Client → List Call → Room
view c calls = map (view_call c) calls

pub view-append :
    (c : Client) (before after : List Call)
    → view c (before ++ after) ≡ view c before ++ view c after
view-append c [] after = refl
view-append c (call ∷ before) after =
    ap (λ room. view_call c call ∷ room) (view-append c before after)

-- Two clients that show the calls the same, up to a function of the entries.
pub view-All :
    (c c' : Client) (f : ℕ × Option Wait → ℕ × Option Wait) (P : Call → Type 0) (calls : List Call)
    → ((call : Call) → P call → view_call c' call ≡ f (view_call c call))
    → All P calls
    → view c' calls ≡ map f (view c calls)
view-All c c' f P [] same h = refl
view-All c c' f P (call ∷ calls) same h = rw (same call h.0, view-All c c' f P calls same h.1) refl

pub view-same :
    (c c' : Client) (P : Call → Type 0) (calls : List Call)
    → ((call : Call) → P call → view_call c' call ≡ view_call c call)
    → All P calls
    → view c' calls ≡ view c calls
view-same c c' P [] same h = refl
view-same c c' P (call ∷ calls) same h = rw (same call h.0, view-same c c' P calls same h.1) refl

pub view-channels :
    (c c' : Client) (calls : List Call) → c'.channels ≡ c.channels → view c' calls ≡ view c calls
unfolding receive
view-channels c c' [] e = refl
view-channels c c' (call ∷ calls) e = rw (e, view-channels c c' calls e) refl

-- No call has the id.
pub lookup-view :
    (c : Client) (id : ℕ) (calls : List Call)
    → All (HasOther id) calls
    → lookup id (view c calls) ≡ none
unfolding lookup
lookup-view c id [] h = refl
lookup-view c id (call ∷ calls) h = let differs = h.0 in ground (arith, lookup-view c id calls h.1)
