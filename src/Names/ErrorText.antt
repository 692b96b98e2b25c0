-- ===== src/Names/ErrorText.antt =====
-- errors.go: the `Error` methods of the three errors that a server reports.
use Prim.Native.String.{String, ◌++◌}
use text.Mathlib.TextLemmas.{append_cancel_left}
use text.Mathlib.TextEquality.{eq_iff}
use bacnet_go.Base.{ℕ, ◌≡◌, refl, Bool, true, false, if◌then◌else◌, inl, arith}
use bacnet_go.Enumeration.{name}
use bacnet_go.Enumeration.Decimal.{decimal, decimal-injective, lacks-decimal}
use bacnet_go.Enumeration.Lacks.{all_lack, lacks-name}
use bacnet_go.Enumeration.Separator.{lacks, append-separated}
use bacnet_go.Names.{
  enumeration, error_class, error_code, reject_reason, abort_reason, name-enumeration,
}

unfoldable pub bacnet_error_text : ℕ → ℕ → String
bacnet_error_text class code =
    "bacnet error: class="
    ++ (name (enumeration error_class) class
        ++ String.◌∷◌ "," (" code=" ++ name (enumeration error_code) code))

unfoldable pub reject_error_text : ℕ → ℕ → String
reject_error_text id reason =
    "bacnet reject: invoke-id="
    ++ (decimal id ++ String.◌∷◌ "," (" reason=" ++ name (enumeration reject_reason) reason))

origin_text : Bool → String
origin_text server = if server then "server" else "client"

unfoldable pub abort_error_text : ℕ → Bool → ℕ → String
unfolding origin_text
abort_error_text id server reason =
    "bacnet abort: invoke-id="
    ++ (decimal id
        ++ String.◌∷◌ "," (
            " origin="
            ++ (origin_text server
                ++ String.◌∷◌ "," (" reason=" ++ name (enumeration abort_reason) reason))))

lacks-error_class : (n : ℕ) → lacks b',' (name (enumeration error_class) n) ≡ true
unfolding enumeration all_lack lacks
lacks-error_class n = lacks-name b',' (enumeration error_class) n (inl (omega arith)) refl refl refl

-- The text of a `BACnetError` tells its class and its code.
bacnet_error_text_lem :
    (class class' code code' : ℕ)
    → bacnet_error_text class code ≡ bacnet_error_text class' code'
    → (class ≡ class') × (code ≡ code')
unfolding bacnet_error_text
bacnet_error_text_lem class class' code code' e =
    let (classes, rest) =
      append-separated "," _ _ _ _ (lacks-error_class class) (lacks-error_class class')
        (append_cancel_left "bacnet error: class=" _ _ e) in
    (
      name-enumeration error_class class class' classes,
      name-enumeration error_code code code' (append_cancel_left " code=" _ _ rest),
    )

-- The text of a `RejectError` tells its invoke id and its reason.
reject_error_text_lem :
    (id id' reason reason' : ℕ)
    → reject_error_text id reason ≡ reject_error_text id' reason'
    → (id ≡ id') × (reason ≡ reason')
unfolding reject_error_text
reject_error_text_lem id id' reason reason' e =
    let (ids, rest) =
      append-separated "," _ _ _ _ (lacks-decimal b',' id (inl (omega arith)))
        (lacks-decimal b',' id' (inl (omega arith)))
        (append_cancel_left "bacnet reject: invoke-id=" _ _ e) in
    (
      decimal-injective id id' ids,
      name-enumeration reject_reason reason reason' (append_cancel_left " reason=" _ _ rest),
    )

lacks-origin_text : (server : Bool) → lacks b',' (origin_text server) ≡ true
unfolding lacks origin_text
lacks-origin_text true = refl
lacks-origin_text false = refl

origin_text-injective : (a b : Bool) → origin_text a ≡ origin_text b → a ≡ b
unfolding origin_text
origin_text-injective true true e = refl
origin_text-injective false false e = refl
origin_text-injective true false e = ground (arith, eq_iff "server" "client", e)
origin_text-injective false true e = ground (arith, eq_iff "client" "server", e)

-- The text of an `AbortError` tells its invoke id, its origin and its reason.
abort_error_text_lem :
    (id id' : ℕ) (server server' : Bool) (reason reason' : ℕ)
    → abort_error_text id server reason ≡ abort_error_text id' server' reason'
    → (id ≡ id') × (server ≡ server') × (reason ≡ reason')
unfolding abort_error_text
abort_error_text_lem id id' server server' reason reason' e =
    let (ids, rest) =
      append-separated "," _ _ _ _ (lacks-decimal b',' id (inl (omega arith)))
        (lacks-decimal b',' id' (inl (omega arith)))
        (append_cancel_left "bacnet abort: invoke-id=" _ _ e) in
    let (origins, last) =
      append-separated "," _ _ _ _ (lacks-origin_text server) (lacks-origin_text server')
        (append_cancel_left " origin=" _ _ rest) in
    (
      decimal-injective id id' ids,
      origin_text-injective server server' origins,
      name-enumeration abort_reason reason reason' (append_cancel_left " reason=" _ _ last),
    )
