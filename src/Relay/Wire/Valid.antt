-- ===== src/Relay/Wire/Valid.antt =====
-- The op that `validateIncomingOp` (routes/ops.ts) lets through.
use kontexta.Base.{
  String, ◌≡◌, refl, ap, Bool, true, false, Option, none, some, if◌then◌else◌, some-eq,
}
use kontexta.Json.{Json, Fields, member, str, obj}
use kontexta.Relay.Tables.{NewOp}
use kontexta.Relay.Wire.{
  op_kinds, includes, is_gid, gid_of, kind_of, origin_of, base_of, created_of, client_seq_of, ◌>>=◌,
  validate_fields, validate_incoming_op,
}

-- A value that passes a test is the one that was tested.
tested {ℓ} :
    {A : Type ℓ} (b : Bool) (a : A) {c : A}
    → (if b then some a else none) ≡ some c
    → (b ≡ true) × (a ≡ c)
tested true a h = (refl, some-eq h)
tested false a h = cc

gid_of-is_gid : (j : Option Json) (s : String) → gid_of j ≡ some s → is_gid s ≡ true
unfolding gid_of
gid_of-is_gid none s h = cc
gid_of-is_gid (some (str t)) s h = let (e, q) = tested (is_gid t) t h in rw (← q) e
gid_of-is_gid (some _) s h = cc

kind_of-includes : (j : Option Json) (s : String) → kind_of j ≡ some s → includes op_kinds s ≡ true
unfolding kind_of
kind_of-includes none s h = cc
kind_of-includes (some (str t)) s h = let (e, q) = tested (includes op_kinds t) t h in rw (← q) e
kind_of-includes (some _) s h = cc

pub record IsWellFormed (op : NewOp) : Type 0 where
  pub gid_ok : is_gid op.gid ≡ true
  pub kind_ok : includes op_kinds op.kind ≡ true

>>=-eq-some {ℓ κ} :
    {A : Type ℓ} {B : Type κ} (m : Option A) (f : A → Option B) {b : B}
    → (m >>= f) ≡ some b
    → (a : A) × (m ≡ some a) × (f a ≡ some b)
>>=-eq-some none f h = cc
>>=-eq-some (some a) f h = (a, refl, h)

validate_fields-IsWellFormed :
    (r : Fields) (op : NewOp) → validate_fields r ≡ some op → IsWellFormed op
unfolding validate_fields
validate_fields-IsWellFormed r op h =
    let (g, eg, h1) = >>=-eq-some (gid_of (member "gid" r)) _ h in
    let (k, ek, h2) = >>=-eq-some (kind_of (member "kind" r)) _ h1 in
    let (o, eo, h3) = >>=-eq-some (origin_of (member "origin" r)) _ h2 in
    let (v, ev, h4) = >>=-eq-some (base_of (member "base_version" r)) _ h3 in
    let (t, et, h5) = >>=-eq-some (created_of (member "created_at" r)) _ h4 in
    let (p, ep, h6) = >>=-eq-some (member "payload" r) _ h5 in
    let (c, ec, h7) = >>=-eq-some (client_seq_of (member "client_seq" r)) _ h6 in
    let same = some-eq h7 in
    record {
      gid_ok = rw (← ap (λ (x : NewOp). x.gid) same) (gid_of-is_gid _ g eg);
      kind_ok = rw (← ap (λ (x : NewOp). x.kind) same) (kind_of-includes _ k ek);
    }

-- A validated op has a well-formed gid and a known kind.
pub validate-IsWellFormed :
    (raw : Json) (op : NewOp) → validate_incoming_op raw ≡ some op → IsWellFormed op
unfolding validate_incoming_op
validate-IsWellFormed (obj r) op h = validate_fields-IsWellFormed r op h
validate-IsWellFormed _ op h = cc
