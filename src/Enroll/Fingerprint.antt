-- ===== src/Enroll/Fingerprint.antt =====
-- The identifier of a fingerprint and the likeness of two (server/app/services/fingerprint.py). Weights are
-- tenths, and scores are exact fractions where the code has floating-point numbers.
use Prim.Native.String.{◌++◌ as text_append}
use it_asset_inventory.Base.{
  ℕ, zero, suc, ◌+◌, ◌*◌, String, Bool, true, false, not, ◌||◌, [], ◌∷◌, ltb, leb, ◌==◌,
  if◌then◌else◌, str_eq, truthy,
}
use it_asset_inventory.Enroll.Types.{Fingerprint, Hashing}

-- `fingerprint.get(field)`, where a missing field and an empty one are alike.
unfoldable pub field : String → Fingerprint → String
field k [] = ""
field k ((name, v) ∷ fp) = if str_eq name k then v else field k fp

-- The first characters of a text.
unfoldable pub prefix : ℕ → String → String
prefix zero s = ""
prefix (suc n) String.[] = ""
prefix (suc n) (String.◌∷◌ c s) = String.◌∷◌ c (prefix n s)

-- `int(w * 32)` for the three weights, by which of the three fields are present. With the identifier and the
-- guid the quotient 0.3 / 0.8 is rounded below 0.375, and 11 characters are kept.
abbrev pub shares : Bool → Bool → Bool → ℕ × ℕ × ℕ
shares true true true = (16, 9, 6)
shares true true false = (20, 11, 0)
shares true false true = (22, 0, 9)
shares false true true = (0, 19, 12)
shares true false false = (32, 0, 0)
shares false true false = (0, 32, 0)
shares false false true = (0, 0, 32)
shares false false false = (0, 0, 0)

unfoldable pub compute_weighted_id : Hashing → Fingerprint → String
unfolding prefix
compute_weighted_id h fp =
    let uuid = field "smbios_uuid" fp in
    let guid = field "machine_guid" fp in
    let serial = field "mainboard_serial" fp in
    let (a, b, c) = shares (truthy uuid) (truthy guid) (truthy serial) in
    if truthy uuid || truthy guid || truthy serial
    then h.sha256 (
        text_append (prefix a (h.sha256 uuid))
          (text_append (prefix b (h.sha256 guid)) (prefix c (h.sha256 serial))))
    else h.sha256 (h.dumps fp)

-- A fraction, with its denominator.
abbrev pub Frac : Type 0
Frac = ℕ × ℕ

abbrev pub add_frac : Frac → Frac → Frac
add_frac (a, b) (c, d) = (a * d + c * b, b * d)

-- What a field adds to the total and to the score.
abbrev pub compare_field : Hashing → ℕ → String → String → ℕ × Frac
compare_field h w v1 v2 =
    if not (truthy v1) || not (truthy v2)
    then (0, (0, 1))
    else if str_eq v1 v2
    then (w, (w, 1))
    else let (n, d) = h.ratio v1 v2 in if ltb (4 * d) (5 * n) then (w, (w * n, d)) else (w, (0, 1))

-- The total of the weights that count, and the score.
unfoldable pub similarity_score : Hashing → Fingerprint → Fingerprint → ℕ × Frac
similarity_score h fp1 fp2 =
    let (t1, s1) = compare_field h 5 (field "smbios_uuid" fp1) (field "smbios_uuid" fp2) in
    let (t2, s2) = compare_field h 3 (field "machine_guid" fp1) (field "machine_guid" fp2) in
    let (t3, s3) =
      compare_field h 2 (field "mainboard_serial" fp1) (field "mainboard_serial" fp2) in
    (t1 + t2 + t3, add_frac s1 (add_frac s2 s3))

-- `score / total >= 0.6`; a total of 0 is a score of 0.
unfoldable pub is_same_machine : Hashing → Fingerprint → Fingerprint → Bool
unfolding similarity_score
is_same_machine h fp1 fp2 =
    let (total, (n, d)) = similarity_score h fp1 fp2 in
    if total == 0 then false else leb (6 * d * total) (10 * n)
