-- ===== src/Enroll/Retries.antt =====
-- The retries of a machine that is refused.
use it_asset_inventory.Base.{
  ℕ, ◌+◌, ◌<◌, String, ◌≡◌, refl, sym, subst, inl, inr, Option, none, some, List, [], ◌∷◌, ◌++◌,
  arith, length, filter, All, length-append,
}
use it_asset_inventory.Enroll.Attempt.{
  one_or_none, day, is_recent, match_machine, new_attempt, save_attempt, record_enroll_attempt,
}
use it_asset_inventory.Enroll.Drift.{All-append_one}
use it_asset_inventory.Enroll.Fingerprint.{compute_weighted_id}
use it_asset_inventory.Enroll.Spent.{Found-cases}
use it_asset_inventory.Enroll.Types.{Db, Call, EnrollToken, EnrollAttempt, Hashing, absent}

-- Attempts that hold the time at which the process was started.
abbrev pub FromStart : ℕ → Db → Type 0
FromStart started db = All (λ a. a.created_at ≡ started) db.attempts

none_recent :
    (uuid status : String) (now started : ℕ) (rows : List EnrollAttempt)
    → started + day < now
    → All (λ a. a.created_at ≡ started) rows
    → filter (is_recent uuid status now) rows ≡ []
none_recent uuid status now started [] late h = refl
none_recent uuid status now started (a ∷ rows) late (e, h) =
    ground (arith, none_recent uuid status now started rows late h)

save_attempt_adds :
    (c : Call) (uuid status : String) (t : Option EnrollToken) (matched : Option ℕ) (db after : Db)
    → c.started + day < c.now
    → FromStart c.started db
    → save_attempt c uuid status t matched db ≡ some after
    → (length after.attempts ≡ length db.attempts + 1) × FromStart c.started after
save_attempt_adds c uuid status t matched db after late old e =
    let none_found : one_or_none (is_recent uuid status c.now) db.attempts ≡ absent =
      rw (none_recent uuid status c.now c.started db.attempts late old) refl in
    let g = rw (none_found, save_attempt) at e in
    let same : db.attempts ++ new_attempt c uuid status t matched ∷ [] ≡ after.attempts = cc in
    (
      rw (sym same) (length-append db.attempts _),
      subst (λ xs. All (λ a. a.created_at ≡ c.started) xs) same
          (All-append_one _ db.attempts _ old refl),
    )

-- If the process has run for more than a day and every attempt of the table holds the time of its start, an attempt that
-- is put on record is a new row, whatever machine it comes from, and every attempt holds that time again.
pub record_attempt_adds :
    (h : Hashing) (c : Call) (status : String) (t : Option EnrollToken) (db after : Db)
    → c.started + day < c.now
    → FromStart c.started db
    → record_enroll_attempt h c status t db ≡ some after
    → (length after.attempts ≡ length db.attempts + 1) × FromStart c.started after
unfolding record_enroll_attempt
record_attempt_adds h c status t db after late old e =
    let uuid = compute_weighted_id h c.fingerprint in
    elim (Found-cases (match_machine uuid t db)) [
      | inl f ↦
          save_attempt_adds c uuid status t none db after late old
            (rw (f, record_enroll_attempt) at e)
      | inr (inl f) ↦ let q = rw (f, record_enroll_attempt) at e in (cc, cc)
      | inr (inr (x, f)) ↦
          save_attempt_adds c uuid status t (some x.id) db after late old
            (rw (f, record_enroll_attempt) at e)
    ]
