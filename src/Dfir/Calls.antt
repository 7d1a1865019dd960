-- ===== src/Dfir/Calls.antt =====
-- What the calls from outside the worker do to one row, and what follows for the table.
use it_asset_inventory.Base.{
  ℕ, ◌≤◌, String, ◌≡◌, refl, ap, ◌∙◌, subst, inl, inr, Bool, true, false, ◌||◌, Option, none, some,
  List, [], ◌∷◌, ◌++◌, arith, eq_iff, Bool-cases, str_eq, filter, update, All,
}
use it_asset_inventory.Dfir.Analyze.{Side}
use it_asset_inventory.Dfir.Callback.{text_eq?→eq, find_row-id}
use it_asset_inventory.Dfir.Capacity.{slots, slots-put_le}
use it_asset_inventory.Dfir.External.{admit, store_callback, find_row, claim_poll, Callback}
use it_asset_inventory.Dfir.Progress.{update_investigation_status, Progress}
use it_asset_inventory.Dfir.Queue.{is_active, has_id}
use it_asset_inventory.Dfir.Sound.{IsSound}
use it_asset_inventory.Dfir.SoundTick.{All-put}
use it_asset_inventory.Dfir.Table.{IsKeyed, put-IsKeyed, filter-IsKeyed, All-filter}
use it_asset_inventory.Dfir.Types.{is_deepagent, hermes_is, Inv, failed, stopped_by_user}
use it_asset_inventory.Dfir.Worker.{put}

-- A change of a row that keeps its identifier, keeps it sound, and takes no slot.
pub record Calm (i j : Inv) : Type 0 where
  pub same_id : j.id ≡ i.id
  pub stays_sound : IsSound i → IsSound j
  pub takes_no_slot : is_active j ≡ true → is_active i ≡ true

-- A table in order: distinct identifiers, sound rows, and at most `n` slots taken.
pub record InOrder (n : ℕ) (rows : List Inv) : Type 0 where
  pub keyed : IsKeyed rows
  pub sound : All IsSound rows
  pub within : slots rows ≤ n

pub callback-Calm :
    (now : ℕ) (b : Callback) (i : Inv) (d : Side)
    → admit b i ≡ inr true
    → Calm i (store_callback now b i d).0
unfolding store_callback admit
callback-Calm now b i d h = record {
  same_id = ground arith;
  stays_sound = λ s. record {
    finished = ground arith;
    bound = ground (arith, s.bound, text_eq?→eq b.external_job_id i.external_job_id);
    owned = ground arith;
  };
  takes_no_slot = ground arith;
}

hermes_is→eq : (o : Option String) (s : String) → hermes_is o s ≡ true → o ≡ some s
hermes_is→eq none s h = cc
hermes_is→eq (some t) s h = ap some (ground (arith, eq_iff t s))

-- The job of a DeepAgent row stays.
progress_job :
    (p : Progress) (i : Inv)
    → is_deepagent i.orchestrator ≡ true
    → (update_investigation_status p i).1.external_job_id ≡ i.external_job_id
unfolding update_investigation_status
progress_job p i d = ground (arith, hermes_is→eq i.external_job_id p.job)

-- Nothing else that the invariant speaks of changes.
progress_same :
    (p : Progress) (i : Inv)
    → let j = (update_investigation_status p i).1 in
      (j.id ≡ i.id)
      × (j.status ≡ i.status)
      × (j.orchestrator ≡ i.orchestrator)
      × (j.completed_at ≡ i.completed_at)
unfolding update_investigation_status
progress_same p i = ground arith

pub progress-Calm : (p : Progress) (i : Inv) → Calm i (update_investigation_status p i).1
progress-Calm p i =
    let j = (update_investigation_status p i).1 in
    let (id, status, owner, ended) = progress_same p i in
    record {
      same_id = id;
      stays_sound = λ s. record {
        finished = rw (ended, status) s.finished;
        bound = rw owner (λ d. rw (progress_job p i d, id) (s.bound d));
        owned = rw (owner, status) (λ a. rw (progress_job p i (ground arith), id) (s.owned a));
      };
      takes_no_slot = rw (owner, status) (λ a. a);
    }

pub stop-Calm :
    (now : ℕ) (i : Inv)
    → Calm i (record i { status = failed; error = some stopped_by_user; completed_at = some now })
stop-Calm now i = record {
  same_id = refl;
  stays_sound = λ s. record { finished = refl; bound = s.bound; owned = ground arith };
  takes_no_slot = ground arith;
}

pub poll-Calm : (now : ℕ) (i : Inv) → Calm i (claim_poll now i)
poll-Calm now i = record {
  same_id = refl;
  stays_sound = λ s. record { finished = s.finished; bound = s.bound; owned = s.owned };
  takes_no_slot = λ a. a;
}

-- Looking a row up and writing it back.
All-find_row :
    (x : String) (rows : List Inv) (i : Inv)
    → find_row x rows ≡ some i
    → All IsSound rows
    → IsSound i
All-find_row x [] i e a = cc
All-find_row x (r ∷ rows) i e a = elim (Bool-cases (str_eq r.id x)) [
  | inl h ↦ let same : r ≡ i = ground (arith, h) in subst IsSound same a.0
  | inr h ↦ All-find_row x rows i (rw h at e) a.1
]

slots-put_calm :
    (x : String) (rows : List Inv) (i j : Inv)
    → find_row x rows ≡ some i
    → j.id ≡ x
    → (is_active j ≡ true → is_active i ≡ true)
    → IsKeyed rows
    → slots (put j rows) ≤ slots rows
slots-put_calm x [] i j e q a k = cc
slots-put_calm x (r ∷ rows) i j e q a k = elim (Bool-cases (str_eq r.id x)) [
  | inl h ↦
      let same : r ≡ i = ground (arith, h) in
      let alone : has_id j.id rows ≡ false = ground (arith, k.0, eq_iff r.id x) in
      let here : str_eq r.id j.id ≡ true = rw q h in
      let less : is_active j ≡ true → is_active r ≡ true = rw same a in
      rw here (ground (arith, slots-put_le j rows alone, less))
  | inr h ↦
      let other : str_eq r.id j.id ≡ false = rw q h in
      let below = slots-put_calm x rows i j (rw h at e) q a k.1 in rw other (ground (arith, below))
]

pub put-InOrder :
    (n : ℕ) (x : String) (rows : List Inv) (i j : Inv)
    → find_row x rows ≡ some i
    → Calm i j
    → InOrder n rows
    → InOrder n (put j rows)
put-InOrder n x rows i j e c o =
    let below =
      slots-put_calm x rows i j e (c.same_id ∙ find_row-id x rows i e) c.takes_no_slot o.keyed in
    record {
      keyed = put-IsKeyed j rows o.keyed;
      sound = All-put j rows (c.stays_sound (All-find_row x rows i e o.sound)) o.sound;
      within = omega (arith, below, o.within);
    }

slots-filter : (p : Inv → Bool) (rows : List Inv) → slots (filter p rows) ≤ slots rows
slots-filter p [] = omega arith
slots-filter p (i ∷ rows) = ground (arith, slots-filter p rows)

pub filter-InOrder :
    (n : ℕ) (p : Inv → Bool) (rows : List Inv) → InOrder n rows → InOrder n (filter p rows)
filter-InOrder n p rows o = record {
  keyed = filter-IsKeyed p rows o.keyed;
  sound = All-filter IsSound p rows o.sound;
  within = omega (arith, slots-filter p rows, o.within);
}

-- A row that is added.
has_id-append :
    (x : String) (rows : List Inv) (i : Inv)
    → has_id x (rows ++ i ∷ []) ≡ has_id x rows || str_eq i.id x
has_id-append x [] i = ground arith
has_id-append x (r ∷ rows) i = ground (arith, has_id-append x rows i)

append-IsKeyed :
    (rows : List Inv) (i : Inv) → has_id i.id rows ≡ false → IsKeyed rows → IsKeyed (rows ++ i ∷ [])
append-IsKeyed [] i h k = (refl, tt)
append-IsKeyed (r ∷ rows) i h k = (
  has_id-append r.id rows i ∙ ground (arith, k.0, eq_iff i.id r.id, eq_iff r.id i.id),
  append-IsKeyed rows i (ground arith) k.1,
)

All-append :
    (rows : List Inv) (i : Inv) → All IsSound rows → IsSound i → All IsSound (rows ++ i ∷ [])
All-append [] i a h = (h, tt)
All-append (r ∷ rows) i a h = (a.0, All-append rows i a.1 h)

slots-append :
    (rows : List Inv) (i : Inv) → is_active i ≡ false → slots (rows ++ i ∷ []) ≡ slots rows
slots-append [] i h = ground arith
slots-append (r ∷ rows) i h = ground (arith, slots-append rows i h)

pub append-InOrder :
    (n : ℕ) (rows : List Inv) (i : Inv)
    → has_id i.id rows ≡ false
    → is_active i ≡ false
    → IsSound i
    → InOrder n rows
    → InOrder n (rows ++ i ∷ [])
append-InOrder n rows i new idle h o = record {
  keyed = append-IsKeyed rows i new o.keyed;
  sound = All-append rows i o.sound h;
  within = omega (arith, slots-append rows i idle, o.within);
}

-- The rows that a poll takes.
has_id-poll :
    (x : String) (p : Inv → Bool) (now : ℕ) (rows : List Inv)
    → has_id x (update p (claim_poll now) rows) ≡ has_id x rows
has_id-poll x p now [] = refl
has_id-poll x p now (i ∷ rows) = ground (arith, has_id-poll x p now rows)

pub poll-InOrder :
    (n now : ℕ) (p : Inv → Bool) (rows : List Inv)
    → InOrder n rows
    → InOrder n (update p (claim_poll now) rows)
poll-InOrder n now p rows o = record {
  keyed = keyed_all rows o.keyed;
  sound = sound_all rows o.sound;
  within = omega (arith, slots_all rows, o.within);
}
  where
    keyed_all : (is : List Inv) → IsKeyed is → IsKeyed (update p (claim_poll now) is)
    keyed_all [] k = tt
    keyed_all (i ∷ is) k = ground (arith, keyed_all is k.1, has_id-poll i.id p now is)

    sound_all : (is : List Inv) → All IsSound is → All IsSound (update p (claim_poll now) is)
    sound_all [] a = tt
    sound_all (i ∷ is) a = elim (Bool-cases (p i)) [
      | inl e ↦ rw e ((poll-Calm now i).stays_sound a.0, sound_all is a.1)
      | inr e ↦ rw e (a.0, sound_all is a.1)
    ]

    slots_all : (is : List Inv) → slots (update p (claim_poll now) is) ≡ slots is
    slots_all [] = refl
    slots_all (i ∷ is) = ground (arith, slots_all is)
