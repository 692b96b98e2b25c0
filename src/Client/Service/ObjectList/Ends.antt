-- ===== src/Client/Service/ObjectList/Ends.antt =====
-- Whether `GetObjectList` ends, and with what.
use bacnet_go.Base.{
  ℕ, zero, suc, ◌+◌, ◌-◌, ◌%◌, ◌^◌, ◌≤◌, ◌<◌, ◌≡◌, List, [], ◌++◌, append-nil, append_assoc, ◌⊎◌,
  inr, arith,
}
use bacnet_go.Client.Service.ObjectList.{object_of, read_objects, get_object_list}
use bacnet_go.Errors.{Error}
use bacnet_go.Go.{ok, panic}
use bacnet_go.Types.ObjectId.{ObjectIdentifier}
use bacnet_go.Value.{Value, unsigned}

module _ {S : Type 0} (read : ℕ → S → S × (Error ⊎ Value)) where
  -- The reads of `count` array elements from `i` on: the state behind them, and the objects among
  -- the answers.
  pub elements : ℕ → ℕ → S → S × List ObjectIdentifier
  elements zero i s = (s, [])
  elements (suc count) i s =
      let (s', answer) = read i s in
      let (end, objects) = elements count (i + 1) s' in (end, object_of answer ++ objects)

  read_objects-elements :
      (fuel count i size : ℕ) (objects : List ObjectIdentifier) (s : S)
      → count ≤ fuel
      → i + count ≡ size + 1
      → size < 2 ^ 32 - 1
      → read_objects read fuel i size objects s
        ≡ ((elements count i s).0, ok (objects ++ (elements count i s).1))
  unfolding read_objects elements
  read_objects-elements zero zero i size objects s h p k = ground (arith, append-nil objects)
  read_objects-elements (suc fuel) zero i size objects s h p k = ground (arith, append-nil objects)
  read_objects-elements zero (suc count) i size objects s h p k = absurd (omega arith)
  read_objects-elements (suc fuel) (suc count) i size objects s h p k = ground (
    arith,
    read_objects-elements fuel count (i + 1) size (objects ++ object_of (read i s).1) (read i s).0
        (omega arith) (omega arith) k,
    append_assoc objects (object_of (read i s).1) (elements count (i + 1) (read i s).0).1,
  )

  -- When the device answers a length below 2 ^ 32 - 1, `GetObjectList` ends, and returns the objects
  -- among the elements that can be read, in order; as many turns as the length says are enough.
  pub get_object_list-elements :
      (fuel size : ℕ) (s : S)
      → (read 0 s).1 ≡ inr (unsigned size)
      → size < 2 ^ 32 - 1
      → size ≤ fuel
      → get_object_list read fuel s
        ≡ ((elements size 1 (read 0 s).0).0, ok (elements size 1 (read 0 s).0).1)
  unfolding get_object_list
  get_object_list-elements fuel size s e h k =
      rw e (read_objects-elements fuel size 1 size [] (read 0 s).0 k (omega arith) h)

  read_objects_forever :
      (fuel i : ℕ) (objects : List ObjectIdentifier) (s : S)
      → i < 2 ^ 32
      → (read_objects read fuel i (2 ^ 32 - 1) objects s).1 ≡ panic
  unfolding read_objects
  read_objects_forever zero i objects s h = ground arith
  read_objects_forever (suc fuel) i objects s h = ground (
    arith,
    read_objects_forever fuel ((i + 1) % 2 ^ 32) (objects ++ object_of (read i s).1) (read i s).0
        (omega arith),
  )

  -- A device that reports the length 2 ^ 32 - 1 keeps `GetObjectList` from ending: no number of turns
  -- is enough, whatever the reads answer.
  pub get_object_list_forever :
      (fuel : ℕ) (s : S)
      → (read 0 s).1 ≡ inr (unsigned (2 ^ 32 - 1))
      → (get_object_list read fuel s).1 ≡ panic
  unfolding get_object_list
  get_object_list_forever fuel s e =
      rw e (read_objects_forever fuel 1 [] (read 0 s).0 (omega arith))
