-- ===== src/Client/Service/ObjectList.antt =====
-- client.go: `GetObjectList`, over whatever `ReadProperty` of the object list answers. The allocation
-- before the loop, with room for as many objects as the device reports, is left out: here it always
-- succeeds.
pub mod Ends
use bacnet_go.Base.{
  ℕ, zero, suc, ◌+◌, ◌%◌, ◌^◌, Bool, true, false, List, [], ◌∷◌, ◌++◌, Option, none, some, ◌⊎◌, inl,
  inr, leb, if◌then◌else◌,
}
use bacnet_go.Errors.{Error, plain, unexpected_object_list_length}
use bacnet_go.Go.{Result, ok, err, panic}
use bacnet_go.Types.ObjectId.{ObjectIdentifier}
use bacnet_go.Value.{
  Value, null, boolean, unsigned, signed, int, real, double, octets, text, bit_string, date, time,
  object_id,
}

-- `val.(ObjectIdentifier)`, and `continue` for an error or another type.
abbrev pub object_of : Error ⊎ Value → List ObjectIdentifier
object_of (inr (object_id o)) = o ∷ []
object_of other = []

-- `lengthVal.(uint32)`
abbrev pub length_of : Error ⊎ Value → Result ℕ
length_of (inl e) = err e
length_of (inr (unsigned n)) = ok n
length_of (inr other) = err (plain unexpected_object_list_length)

-- `S` is the state of the client and the network that a read acts on; the argument of a read is the
-- array index.
module _ {S : Type 0} (read : ℕ → S → S × (Error ⊎ Value)) where
  -- `for i := uint32(1); i <= length; i++`, with a panic where the fuel ends.
  unfoldable pub read_objects :
      ℕ → ℕ → ℕ → List ObjectIdentifier → S → S × Result (List ObjectIdentifier)
  read_objects zero i size objects s = (s, (if leb i size then panic else ok objects))
  read_objects (suc fuel) i size objects s = elim (leb i size) [
    | false ↦ (s, ok objects)
    | true ↦
        let (s', answer) = read i s in
        read_objects fuel ((i + 1) % 2 ^ 32) size (objects ++ object_of answer) s'
  ]

  objects_for : ℕ → S → Result ℕ → S × Result (List ObjectIdentifier)
  objects_for fuel s panic = (s, panic)
  objects_for fuel s (err e) = (s, err e)
  objects_for fuel s (ok size) = read_objects fuel 1 size [] s

  unfoldable pub get_object_list : ℕ → S → S × Result (List ObjectIdentifier)
  unfolding objects_for
  get_object_list fuel s = let (s', answer) = read 0 s in objects_for fuel s' (length_of answer)
