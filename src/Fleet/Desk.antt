-- ===== src/Fleet/Desk.antt =====
-- What administrators do to a machine (`update_lifecycle`, `approve_machine`, `reject_machine` of
-- server/app/api/routes/machines.py). The audit entries are left out.
use Prim.Native.String.{◌++◌ as text_append}
use it_asset_inventory.Access.Orgs.{has}
use it_asset_inventory.Base.{
  ℕ, ◌+◌, String, ◌⊎◌, inl, inr, Bool, false, not, Option, none, some, List, [], ◌∷◌, leb,
  if◌then◌else◌, str_eq, truthy?, text_or, text_of, update, one_of,
}
use it_asset_inventory.Enroll.Types.{MachineStatus, online, offline, decommissioned}
use it_asset_inventory.Fleet.Types.{
  is_awaiting, is_row, machine_by_id, offline_threshold, Machine, Thresholds,
}

pub data DeskResponse : Type 0 where
  not_found not_allowed bad_request unprocessable : DeskResponse
  done : MachineStatus → DeskResponse

-- `_get_machine_in_scope`, of the organisations that the administrator sees.
unfoldable pub get_machine_in_scope : List ℕ → ℕ → List Machine → DeskResponse ⊎ Machine
get_machine_in_scope visible i rows = elim (machine_by_id i rows) [
  | none ↦ inl not_found
  | some m ↦ if has m.org_id visible then inr m else inl not_allowed
]

abbrev pub put_machine : Machine → List Machine → List Machine
put_machine m rows = update (is_row m.id) (λ _. m) rows

abbrev pub lifecycles : List String
lifecycles = "new" ∷ "in_use" ∷ "in_repair" ∷ "decommissioned" ∷ []

abbrev pub with_note : Option String → Machine → Machine
with_note note m = if truthy? note then record m { note = note } else m

abbrev pub with_lifecycle : String → Machine → Machine
with_lifecycle l m =
    if str_eq l "decommissioned"
    then record m { lifecycle = l; status = decommissioned }
    else record m { lifecycle = l }

-- `update_lifecycle`.
unfoldable pub update_lifecycle :
    List ℕ → ℕ → String → Option String → List Machine → DeskResponse × List Machine
update_lifecycle visible i l note rows =
    if not (one_of l lifecycles)
    then (unprocessable, rows)
    else elim (get_machine_in_scope visible i rows) [
      | inl r ↦ (r, rows)
      | inr m ↦
          let m' = with_note note (with_lifecycle l m) in (done m'.status, put_machine m' rows)
    ]

abbrev pub seen_lately : ℕ → ℕ → Option ℕ → Bool
seen_lately threshold now none = false
seen_lately threshold now (some seen) = leb now (seen + threshold)

abbrev pub approved_status : Thresholds → ℕ → Machine → MachineStatus
approved_status t now m =
    if seen_lately (offline_threshold t) now m.last_seen_at then online else offline

-- `approve_machine`.
unfoldable pub approve_machine :
    Thresholds → List ℕ → ℕ → Option String → ℕ → List Machine → DeskResponse × List Machine
approve_machine t visible i note now rows = elim (get_machine_in_scope visible i rows) [
  | inl r ↦ (r, rows)
  | inr m ↦
      if not (is_awaiting m.status)
      then (bad_request, rows)
      else let m' =
          with_note note (record m { status = approved_status t now m; lifecycle = "in_use" }) in
        (done m'.status, put_machine m' rows)
]

-- The note of a rejection, before the note that there was.
abbrev pub rejection : Option String → Option String → String
rejection reason old =
    text_append (text_append "Từ chối duyệt: " (text_of (text_or reason (some "không rõ lý do"))))
      (if truthy? old then text_append "\n" (text_of old) else "")

-- `reject_machine`.
unfoldable pub reject_machine :
    List ℕ → ℕ → Option String → List Machine → DeskResponse × List Machine
reject_machine visible i note rows = elim (get_machine_in_scope visible i rows) [
  | inl r ↦ (r, rows)
  | inr m ↦
      let m' : Machine = record m {
        status = decommissioned;
        lifecycle = "decommissioned";
        note = some (rejection note m.note);
      } in
      (done decommissioned, put_machine m' rows)
]
