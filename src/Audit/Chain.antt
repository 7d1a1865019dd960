-- ===== src/Audit/Chain.antt =====
-- The check of the chain of hashes, and its anchor.
use it_asset_inventory.Audit.{
  genesis, last_hash, append_audit, verify_from, verify_chain, anchor_hash, Event, Row,
}
use it_asset_inventory.Base.{
  ℕ, ◌+◌, String, ◌≡◌, refl, sym, ap, ◌∙◌, ◌≢◌, ◌↔◌, Bool, true, false, Option, none, some, List,
  [], ◌∷◌, ◌++◌, arith, eq_iff, truthy, length,
}

-- The rows are linked from `prev` on, and each carries the digest of its own event.
abbrev pub IsChain : (Event → String) → String → List Row → Type 0
IsChain digest prev [] = Unit
IsChain digest prev (r ∷ rest) =
    (r.prev_hash ≡ prev) × (r.content_hash ≡ digest r.event) × IsChain digest r.content_hash rest

module _ (digest : Event → String) where
  verify→chain :
      (i : ℕ) (prev : String) (rows : List Row)
      → verify_from digest i prev rows ≡ (true, none)
      → IsChain digest prev rows
  unfolding verify_from
  verify→chain i prev [] h = tt
  verify→chain i prev (r ∷ rest) h = ground (
    arith,
    eq_iff r.prev_hash prev,
    eq_iff r.content_hash (digest r.event),
    verify→chain (i + 1) r.content_hash rest,
  )

  chain→verify :
      (i : ℕ) (prev : String) (rows : List Row)
      → IsChain digest prev rows
      → verify_from digest i prev rows ≡ (true, none)
  unfolding verify_from
  chain→verify i prev [] h = refl
  chain→verify i prev (r ∷ rest) h = ground (
    arith,
    eq_iff r.prev_hash prev,
    eq_iff r.content_hash (digest r.event),
    chain→verify (i + 1) r.content_hash rest h.2,
  )

  -- The check accepts a log exactly if every row carries the hash of the row before it, the first one the genesis hash,
  -- and the digest of its own event.
  pub verify_chain_iff :
      (rows : List Row) → (verify_chain digest rows ≡ (true, none)) ↔ IsChain digest genesis rows
  unfolding verify_chain
  verify_chain_iff rows = (verify→chain 0 genesis rows, chain→verify 0 genesis rows)

  -- The last hash, from `prev` on.
  abbrev end_hash : String → List Row → String
  end_hash prev [] = prev
  end_hash prev (r ∷ rest) = end_hash r.content_hash rest

  IsChain-snoc :
      (prev : String) (rows : List Row) (r : Row)
      → IsChain digest prev rows
      → r.prev_hash ≡ end_hash prev rows
      → r.content_hash ≡ digest r.event
      → IsChain digest prev (rows ++ r ∷ [])
  IsChain-snoc prev [] r h p c = (p, c, tt)
  IsChain-snoc prev (s ∷ rest) r h p c = (h.0, h.1, IsChain-snoc s.content_hash rest r h.2 p c)

  module _ (full : (e : Event) → truthy (digest e) ≡ true) where
    last_hash-chain :
        (prev : String) (r : Row) (rest : List Row)
        → IsChain digest prev (r ∷ rest)
        → last_hash digest (r ∷ rest) ≡ end_hash prev (r ∷ rest)
    unfolding last_hash
    last_hash-chain prev r [] h = rw (h.1, full r.event)
    last_hash-chain prev r (s ∷ rest) h = last_hash-chain r.content_hash s rest h.2

    last_hash-genesis :
        (rows : List Row)
        → IsChain digest genesis rows
        → last_hash digest rows ≡ end_hash genesis rows
    unfolding last_hash
    last_hash-genesis [] h = refl
    last_hash-genesis (r ∷ rest) h = last_hash-chain genesis r rest h

    -- Appending an entry to an accepted log gives an accepted log, provided no digest is an empty text.
    pub append_audit-verify :
        (e : Event) (ip : Option String) (rows : List Row)
        → verify_chain digest rows ≡ (true, none)
        → verify_chain digest (append_audit digest e ip rows) ≡ (true, none)
    unfolding append_audit
    append_audit-verify e ip rows h =
        let c = (verify_chain_iff rows).0 h in
        let new : Row = record {
          event = e;
          ip = ip;
          prev_hash = last_hash digest rows;
          content_hash = digest e;
        } in
        (verify_chain_iff (rows ++ new ∷ [])).1
          (IsChain-snoc genesis rows new c (last_hash-genesis rows c) refl)

    last_hash-snoc :
        (prev : String) (rows : List Row) (r : Row)
        → IsChain digest prev (rows ++ r ∷ [])
        → last_hash digest (rows ++ r ∷ []) ≡ digest r.event
    unfolding last_hash
    last_hash-snoc prev [] r h = rw (h.1, full r.event)
    last_hash-snoc prev (s ∷ []) r h = rw (h.2.1, full r.event)
    last_hash-snoc prev (s ∷ t ∷ rest) r h = last_hash-snoc s.content_hash (t ∷ rest) r h.2

    -- Two accepted logs whose last entries are one event have one anchor, whatever stands before, provided no digest is an
    -- empty text.
    pub anchor_forgets :
        (xs ys : List Row) (r s : Row)
        → verify_chain digest (xs ++ r ∷ []) ≡ (true, none)
        → verify_chain digest (ys ++ s ∷ []) ≡ (true, none)
        → r.event ≡ s.event
        → anchor_hash digest (xs ++ r ∷ []) ≡ anchor_hash digest (ys ++ s ∷ [])
    unfolding anchor_hash
    anchor_forgets xs ys r s h k e =
        last_hash-snoc genesis xs r ((verify_chain_iff (xs ++ r ∷ [])).0 h)
        ∙ ap digest e
        ∙ sym (last_hash-snoc genesis ys s ((verify_chain_iff (ys ++ s ∷ [])).0 k))

  verify_changed :
      (i : ℕ) (prev : String) (xs ys : List Row) (r : Row) (e : Event)
      → verify_from digest i prev (xs ++ r ∷ ys) ≡ (true, none)
      → digest e ≢ digest r.event
      → verify_from digest i prev (xs ++ record r { event = e } ∷ ys)
        ≡ (false, some (i + length xs))
  unfolding verify_from
  verify_changed i prev [] ys r e h ne =
      ground (arith, eq_iff r.content_hash (digest e), eq_iff r.content_hash (digest r.event))
  verify_changed i prev (x ∷ xs) ys r e h ne =
      ground (arith, verify_changed (i + 1) x.content_hash xs ys r e)

  -- Changing the event of one row of an accepted log, and nothing else, is found, and the check names that row,
  -- provided the two events have different digests.
  pub change_detected :
      (xs ys : List Row) (r : Row) (e : Event)
      → verify_chain digest (xs ++ r ∷ ys) ≡ (true, none)
      → digest e ≢ digest r.event
      → verify_chain digest (xs ++ record r { event = e } ∷ ys) ≡ (false, some (length xs))
  unfolding verify_chain
  change_detected xs ys r e h ne =
      verify_changed 0 genesis xs ys r e h ne ∙ omega_length (length xs)
    where
      omega_length : (n : ℕ) → ◌≡◌ {A = Bool × Option ℕ} (false, some (0 + n)) (false, some n)
      omega_length n = ground arith
