-- ===== src/Client/Sender/Ledger.antt =====
-- The changesets at the sequencer, in the recovery database and in the buffer, counted.
use synddb.Prelude.{
  ℕ, ◌+◌, ◌<◌, ◌≡◌, refl, sym, ap, ◌∙◌, Bool, Option, none, some, List, [], ◌∷◌, ◌++◌, append-nil,
  append_assoc, length, map, filter, All, All-append, length-append, filter-append, arith,
}
use synddb.Client.Recovery.{Changeset, FailedRow, FailedBatchRecovery, Table, save_failed}
use synddb.Client.Sender.{ChangesetData, Env, World, changeset_data, save_all, push}

-- The data of a row, and of the rows of a database.
abbrev pub row_data : FailedRow → ChangesetData
row_data r = record { payload = r.payload; sequence = r.sequence; timestamp = r.timestamp }

abbrev pub saved_data : Option FailedBatchRecovery → List ChangesetData
saved_data none = []
saved_data (some r) = map row_data r.failed_changesets.rows

-- How many of some data satisfy a test.
abbrev pub count : (ChangesetData → Bool) → List ChangesetData → ℕ
count p xs = length (filter p xs)

pub count-append :
    (p : ChangesetData → Bool) (xs ys : List ChangesetData)
    → count p (xs ++ ys) ≡ count p xs + count p ys
count-append p xs ys = ap length (filter-append p xs ys) ∙ length-append (filter p xs) (filter p ys)

map-append : {A B : Type 0} (f : A → B) (xs ys : List A) → map f (xs ++ ys) ≡ map f xs ++ map f ys
map-append f [] ys = refl
map-append f (x ∷ xs) ys = ap (◌∷◌ (f x)) (map-append f xs ys)

-- Of the data at the sequencer, in the recovery database and in the buffer.
abbrev pub total : (ChangesetData → Bool) → World → ℕ
total p w =
    count p w.accepted
    + (count p (saved_data w.sender.recovery) + count p (map changeset_data w.sender.buffer))

abbrev pub AfterEpoch : Changeset → Type 0
AfterEpoch c = (nanos : ℕ) × (c.timestamp ≡ some nanos)

abbrev pub Works : Env → Type 0
Works env = (c : Changeset) → env.storage c ≡ none

save_failed-rows :
    (env : Env) (c : Changeset) (table : Table)
    → Works env
    → AfterEpoch c
    → map row_data (save_failed (env.storage c) env.now c "Max retries exceeded" table).0.rows
      ≡ map row_data table.rows ++ changeset_data c ∷ []
unfolding save_failed
save_failed-rows env c table works (nanos, e) =
    rw (works c) (rw e (map-append row_data table.rows _))

pub save_all-rows :
    (env : Env) (cs : List Changeset) (table : Table)
    → Works env
    → All AfterEpoch cs
    → map row_data (save_all env cs table).rows ≡ map row_data table.rows ++ map changeset_data cs
unfolding save_all
save_all-rows env [] table works h = sym (append-nil (map row_data table.rows))
save_all-rows env (c ∷ cs) table works (h, hs) =
    let table' = (save_failed (env.storage c) env.now c "Max retries exceeded" table).0 in
    save_all-rows env cs table' works hs
    ∙ ap (λ xs. xs ++ map changeset_data cs) (save_failed-rows env c table works h)
    ∙ append_assoc (map row_data table.rows) (changeset_data c ∷ []) (map changeset_data cs)

-- The loop may try to send, there is a recovery database, and what is in the buffer can be saved.
abbrev pub Ready : World → Type 0
Ready w =
    (0 < w.sender.config.max_retries)
    × ((r : FailedBatchRecovery) × (w.sender.recovery ≡ some r))
    × All AfterEpoch w.sender.buffer

-- From one world to another, some changesets more and none lost or doubled.
abbrev pub Conserves : List Changeset → World → World → Type 0
Conserves cs w w' =
    ((p : ChangesetData → Bool) → total p w' ≡ total p w + count p (map changeset_data cs))
    × Ready w'

pub Conserves-trans :
    (cs ds : List Changeset) (w w' w'' : World)
    → Conserves cs w w'
    → Conserves ds w' w''
    → Conserves (cs ++ ds) w w''
Conserves-trans cs ds w w' w'' (h, r) (k, r') = (
  λ p.
      let both : count p (map changeset_data (cs ++ ds))
          ≡ count p (map changeset_data cs) + count p (map changeset_data ds) =
        ap (count p) (map-append changeset_data cs ds)
        ∙ count-append p (map changeset_data cs) (map changeset_data ds) in
      let a : total p w' ≡ total p w + count p (map changeset_data cs) = h p in
      let b : total p w'' ≡ total p w' + count p (map changeset_data ds) = k p in omega arith,
  r',
)

pub push-Conserves :
    (c : Changeset) (w : World) → AfterEpoch c → Ready w → Conserves (c ∷ []) w (push c w)
push-Conserves c w h (m, r, b) = (
  λ p.
      let e : count p (map changeset_data (w.sender.buffer ++ c ∷ []))
          ≡ count p (map changeset_data w.sender.buffer) + count p (changeset_data c ∷ []) =
        ap (count p) (map-append changeset_data w.sender.buffer (c ∷ []))
        ∙ count-append p (map changeset_data w.sender.buffer) (changeset_data c ∷ []) in
      omega arith,
  (m, r, All-append AfterEpoch w.sender.buffer (c ∷ []) b (h, tt)),
)
