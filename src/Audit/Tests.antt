-- ===== src/Audit/Tests.antt =====
-- The theorems on the audit log at concrete entries.
-- The digest of an event is its action, marked.
use Prim.Native.String.{char_at}
use it_asset_inventory.Audit.{genesis, append_audit, verify_chain, Event, Row}
use it_asset_inventory.Audit.Chain.{IsChain, verify_chain_iff, append_audit-verify}
use it_asset_inventory.Base.{
  String, ◌≡◌, refl, ◌↔◌, inl, inr, true, none, List, [], ◌∷◌, arith, eq_iff, Bool-cases, str_eq,
  truthy,
}

abbrev digest : Event → String
digest e = String.◌∷◌ (char_at "h" 0) e.action

abbrev event : String → Event
event a = record { action = a; target = none; actor = none; ts = 0 }

abbrev first_row : Row
first_row = record { event = event "a"; ip = none; prev_hash = genesis; content_hash = "ha" }

abbrev second_row : Row
second_row = record { event = event "b"; ip = none; prev_hash = "ha"; content_hash = "hb" }

abbrev lone_row : Row
lone_row = record { event = event "b"; ip = none; prev_hash = genesis; content_hash = "hb" }

abbrev whole : List Row
whole = first_row ∷ second_row ∷ []

digest_full : (e : Event) → truthy (digest e) ≡ true
digest_full e = elim (Bool-cases (str_eq (digest e) "")) [
  | inl h ↦ let same : digest e ≡ "" = ground (arith, eq_iff (digest e) "") in cc
  | inr h ↦ rw h refl
]

verify_chain_iff_example : (verify_chain digest whole ≡ (true, none)) ↔ IsChain digest genesis whole
verify_chain_iff_example = verify_chain_iff digest whole

append_audit-verify_example :
    verify_chain digest (append_audit digest (event "c") none whole) ≡ (true, none)
unfolding verify_chain
append_audit-verify_example = append_audit-verify digest digest_full (event "c") none whole refl
