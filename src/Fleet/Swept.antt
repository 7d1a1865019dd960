-- ===== src/Fleet/Swept.antt =====
-- What a sweep leaves of rows that it may not change, whatever the alerts do.
use it_asset_inventory.Base.{
  ℕ, ◌≡◌, Bool, true, ◌&&◌, List, [], ◌∷◌, arith, filter, all, all-update,
}
use it_asset_inventory.Fleet.Sweep.{
  goes_offline, set_offline, turned_off, sweep_rows, sweep_offline, Aftermath, kept, committed,
  undone, halted,
}
use it_asset_inventory.Fleet.Types.{is_row, Machine, Thresholds}

module _ (q : Machine → Bool) (alert : ℕ → Aftermath) (t : Thresholds) (now : ℕ) where
  all-sweep_rows :
      (found stored rows : List Machine)
      → ((x : Machine) → goes_offline t now x ≡ true → q x ≡ true → q (set_offline x) ≡ true)
      → all q stored ≡ true
      → all q rows ≡ true
      → all q (sweep_rows alert t now found stored rows) ≡ true
  unfolding sweep_rows
  all-sweep_rows [] stored rows keep a b = b
  all-sweep_rows (m ∷ found) stored rows keep a b =
      let swept = turned_off t now m rows in
      let off : all q swept ≡ true =
        all-update q (λ x. is_row m.id x && goes_offline t now x) set_offline rows
          (λ x h p. keep x (ground arith) p) b in
      elim (alert m.id)
        as (λ r.
          all q (elim r [
            | kept ↦ sweep_rows alert t now found stored swept
            | committed ↦ sweep_rows alert t now found swept swept
            | undone ↦ stored
            | halted ↦ swept
          ])
          ≡ true) [
            | kept ↦ all-sweep_rows found stored swept keep a off
            | committed ↦ all-sweep_rows found swept swept keep off off
            | undone ↦ a
            | halted ↦ off
          ]

  -- A property that going offline keeps is kept by the sweep.
  pub all-sweep_offline :
      (rows : List Machine)
      → ((x : Machine) → goes_offline t now x ≡ true → q x ≡ true → q (set_offline x) ≡ true)
      → all q rows ≡ true
      → all q (sweep_offline alert t now rows) ≡ true
  unfolding sweep_offline
  all-sweep_offline rows keep a =
      all-sweep_rows (filter (goes_offline t now) rows) rows rows keep a a
