-- ===== src/Names/Identifier.antt =====
-- types.go: the `String` method of object identifiers.
use Prim.Native.String.{String, ◌++◌}
use bacnet_go.Base.{ℕ, ◌≡◌, refl, true, inr, arith}
use bacnet_go.Enumeration.{name}
use bacnet_go.Enumeration.Decimal.{decimal, decimal-injective}
use bacnet_go.Enumeration.Lacks.{all_lack, lacks-name}
use bacnet_go.Enumeration.Separator.{lacks, append-separated}
use bacnet_go.Names.{enumeration, object_type, name-enumeration}
use bacnet_go.Types.ObjectId.{ObjectIdentifier}

-- `fmt.Sprintf("%s:%d", o.Type.String(), o.Instance)`
unfoldable pub object_identifier_text : ObjectIdentifier → String
object_identifier_text o =
    name (enumeration object_type) o.type ++ String.◌∷◌ ":" (decimal o.instance_number)

lacks-object_type : (n : ℕ) → lacks b':' (name (enumeration object_type) n) ≡ true
unfolding enumeration all_lack lacks
lacks-object_type n = lacks-name b':' (enumeration object_type) n (inr (omega arith)) refl refl refl

-- The text of an object identifier tells its type and its instance.
object_identifier_text-injective :
    (o o' : ObjectIdentifier) → object_identifier_text o ≡ object_identifier_text o' → o ≡ o'
unfolding object_identifier_text
object_identifier_text-injective o o' e =
    let (types, instances) =
      append-separated ":" (name (enumeration object_type) o.type)
        (name (enumeration object_type) o'.type) (decimal o.instance_number)
        (decimal o'.instance_number) (lacks-object_type o.type) (lacks-object_type o'.type) e in
    let p = name-enumeration object_type o.type o'.type types in
    let q = decimal-injective o.instance_number o'.instance_number instances in
    λ i. record { type = p i; instance_number = q i }
