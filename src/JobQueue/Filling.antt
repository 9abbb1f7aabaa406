-- ===== src/JobQueue/Filling.antt =====
-- app/tasks/job_queue.py, `enqueue`: the rows that it adds, and the counters through the writes that
-- go with it.
use rag_semantic_search.Prelude.{
  ℕ, suc, ◌+◌, ◌*◌, ◌≤◌, ◌<◌, ◌≡◌, ◌≢◌, refl, sym, ap, subst, ◌∙◌, inl, inr, Bool, false, ◌&&◌,
  some, none, List, [], ◌∷◌, ◌++◌, arith, leb, length, String, str_eq, eq_iff, str_refl,
  Option-cases,
}
use rag_semantic_search.Prelude.All.{All, All-map}
use rag_semantic_search.Chunker.{PassageRange}
use rag_semantic_search.Database.{Time, ChunkStatus, ChunkRow, Database}
use rag_semantic_search.Chunks.{Passage, has_sequence, new_chunk, insert_one, insert_pending}
use rag_semantic_search.Chunks.Counts.{tally, one_if, Ascending, row}
use rag_semantic_search.JobQueue.{numbered, enqueue}

-- A row of the file has a sequence below n.
abbrev pub Below : String → ℕ → ChunkRow → Type 0
Below id n c = (str_eq c.file_id id && leb n c.sequence) ≡ false

Ascending-append :
    (lo last : ℕ) (cs : List ChunkRow) (c : ChunkRow)
    → lo ≤ last
    → Ascending lo cs
    → All (λ d. d.chunk_id ≤ last) cs
    → last < c.chunk_id
    → Ascending lo (cs ++ c ∷ [])
Ascending-append lo last [] c l a h g = (omega arith, tt)
Ascending-append lo last (d ∷ cs) c l a h g =
    (a.0, Ascending-append d.chunk_id last cs c h.0 a.1 h.1 g)

tally-append_one :
    (q : ChunkStatus → Bool) (id : String) (cs : List ChunkRow) (c : ChunkRow)
    → tally q id (cs ++ c ∷ []) ≡ tally q id cs + one_if (q c.status && str_eq c.file_id id)
tally-append_one q id [] c = omega arith
tally-append_one q id (d ∷ cs) c = omega (arith, tally-append_one q id cs c)

has_sequence-Below :
    (id : String) (n s : ℕ) (cs : List ChunkRow)
    → n ≤ s
    → All (Below id n) cs
    → has_sequence id s cs ≡ false
unfolding has_sequence
has_sequence-Below id n s [] h b = refl
has_sequence-Below id n s (c ∷ cs) h b = ground (arith, has_sequence-Below id n s cs h b.1)

All-append_one {ℓ κ} :
    {A : Type ℓ} (P : A → Type κ) (xs : List A) (x : A) → All P xs → P x → All P (xs ++ x ∷ [])
All-append_one P [] x h p = (p, tt)
All-append_one P (y ∷ xs) x h p = (h.0, All-append_one P xs x h.1 p)

-- What the insertion of k rows of the file `id`, numbered from n on, makes of a table.
pub record Filled (id : String) (n k : ℕ) (db db' : Database) : Type 0 where
  pub same_files : db'.files ≡ db.files
  pub ascending : Ascending 0 db'.chunks
  pub ids : All (λ c. c.chunk_id ≤ db'.last_chunk_id) db'.chunks
  pub last : db.last_chunk_id ≤ db'.last_chunk_id
  pub below : All (Below id (n + k)) db'.chunks
  pub below_other :
      (j : String) (m : ℕ) → j ≢ id → All (Below j m) db.chunks → All (Below j m) db'.chunks
  pub mine :
      (q : ChunkStatus → Bool)
      → tally q id db'.chunks ≡ tally q id db.chunks + one_if (q ChunkStatus.pending) * k
  pub others :
      (q : ChunkStatus → Bool) (j : String) → j ≢ id → tally q j db'.chunks ≡ tally q j db.chunks
  pub rows : (i : ℕ) (c : ChunkRow) → row i db.chunks ≡ some c → row i db'.chunks ≡ some c
  pub no_rows : (i : ℕ) → i ≤ db.last_chunk_id → row i db.chunks ≡ none → row i db'.chunks ≡ none
  pub new_rows :
      (i : ℕ) (c : ChunkRow)
      → row i db.chunks ≡ none
      → row i db'.chunks ≡ some c
      → (c.status ≡ ChunkStatus.pending) × (c.retry_count ≡ 0)

row-append_some :
    (i : ℕ) (cs : List ChunkRow) (d c : ChunkRow)
    → row i cs ≡ some c
    → row i (cs ++ d ∷ []) ≡ some c
unfolding row
row-append_some i [] d c h = ground arith
row-append_some i (e ∷ cs) d c h = ground (arith, row-append_some i cs d c)

row-append_none :
    (i : ℕ) (cs : List ChunkRow) (d : ChunkRow)
    → i < d.chunk_id
    → row i cs ≡ none
    → row i (cs ++ d ∷ []) ≡ none
unfolding row
row-append_none i [] d l h = ground arith
row-append_none i (e ∷ cs) d l h = ground (arith, row-append_none i cs d l)

row-append_new :
    (i : ℕ) (cs : List ChunkRow) (d c : ChunkRow)
    → row i cs ≡ none
    → row i (cs ++ d ∷ []) ≡ some c
    → c ≡ d
unfolding row
row-append_new i [] d c h e = ground arith
row-append_new i (b ∷ cs) d c h e = ground (arith, row-append_new i cs d c)

module _ (id : String) (now : Time) where
  added-Filled :
      (db : Database) (p : Passage)
      → Ascending 0 db.chunks
      → All (λ c. c.chunk_id ≤ db.last_chunk_id) db.chunks
      → All (Below id p.sequence) db.chunks
      → Filled id p.sequence 1 db (record db {
        chunks = db.chunks ++ new_chunk (suc db.last_chunk_id) id p now ∷ [];
        last_chunk_id = suc db.last_chunk_id;
      })
  added-Filled db p a i b =
      let c : ChunkRow = new_chunk (suc db.last_chunk_id) id p now in
      record {
        same_files = refl;
        ascending = Ascending-append 0 db.last_chunk_id db.chunks c (omega arith) a i (omega arith);
        ids =
            All-append_one (λ d. d.chunk_id ≤ suc db.last_chunk_id) db.chunks c
              (All-map db.chunks (λ d h. omega arith) i) (omega arith);
        last = omega arith;
        below =
            All-append_one (Below id (p.sequence + 1)) db.chunks c
              (All-map db.chunks (λ d h. ground arith) b) (ground arith);
        below_other =
            λ j m ne h. All-append_one (Below j m) db.chunks c h (ground (arith, eq_iff id j));
        mine = λ q. ground (arith, tally-append_one q id db.chunks c, str_refl id);
        others = λ q j ne. ground (arith, tally-append_one q j db.chunks c, eq_iff id j);
        rows = λ k d h. row-append_some k db.chunks c d h;
        no_rows = λ k l h. row-append_none k db.chunks c (omega arith) h;
        new_rows = λ k d h e.
            let same = row-append_new k db.chunks c d h e in
            (ap (λ x. x.status) same, ap (λ x. x.retry_count) same);
      }

  insert_one-Filled :
      (db : Database) (p : Passage)
      → Ascending 0 db.chunks
      → All (λ c. c.chunk_id ≤ db.last_chunk_id) db.chunks
      → All (Below id p.sequence) db.chunks
      → Filled id p.sequence 1 db (insert_one id now db p)
  unfolding insert_one
  insert_one-Filled db p a i b =
      rw (has_sequence-Below id p.sequence p.sequence db.chunks (omega arith) b, insert_one)
        (added-Filled db p a i b)

  none-Filled :
      (db : Database) (n : ℕ)
      → Ascending 0 db.chunks
      → All (λ c. c.chunk_id ≤ db.last_chunk_id) db.chunks
      → All (Below id n) db.chunks
      → Filled id n 0 db db
  none-Filled db n a i b = record {
    same_files = refl;
    ascending = a;
    ids = i;
    last = omega arith;
    below = All-map db.chunks (λ d h. ground arith) b;
    below_other = λ j m ne h. h;
    mine = λ q. omega arith;
    others = λ q j ne. refl;
    rows = λ k d h. h;
    no_rows = λ k l h. h;
    new_rows = λ k d h e. absurd (ground arith);
  }

  -- One row, and then k more.
  Filled-trans :
      (n k : ℕ) (db db' db'' : Database)
      → Filled id n 1 db db'
      → Filled id (n + 1) k db' db''
      → Filled id n (k + 1) db db''
  Filled-trans n k db db' db'' f g = record {
    same_files = g.same_files ∙ f.same_files;
    ascending = g.ascending;
    ids = g.ids;
    last = omega (arith, f.last, g.last);
    below =
        let e : n + 1 + k ≡ n + (k + 1) = omega arith in
        subst (λ m. All (Below id m) db''.chunks) e g.below;
    below_other = λ j m ne h. g.below_other j m ne (f.below_other j m ne h);
    mine = λ q. grind (arith, f.mine q, g.mine q);
    others = λ q j ne. g.others q j ne ∙ f.others q j ne;
    rows = λ i c h. g.rows i c (f.rows i c h);
    no_rows = λ i l h. g.no_rows i (omega (arith, f.last)) (f.no_rows i l h);
    new_rows = λ i c h e. elim (Option-cases (row i db'.chunks)) [
      | inl later ↦ g.new_rows i c later e
      | inr (d, now) ↦
          let same : d ≡ c = ground (arith, g.rows i d now) in
          let (status, count) = f.new_rows i d h now in
          (ap (λ x. x.status) (sym same) ∙ status, ap (λ x. x.retry_count) (sym same) ∙ count)
    ];
  }

  insert_pending-Filled :
      (n : ℕ) (ps : List PassageRange) (db : Database)
      → Ascending 0 db.chunks
      → All (λ c. c.chunk_id ≤ db.last_chunk_id) db.chunks
      → All (Below id n) db.chunks
      → Filled id n (length ps) db (insert_pending db id (numbered n ps) now)
  unfolding insert_pending numbered
  insert_pending-Filled n [] db a i b = none-Filled db n a i b
  insert_pending-Filled n (p ∷ ps) db a i b =
      let first =
        insert_one-Filled db
          (record { sequence = n; start_byte = p.start_byte; end_byte = p.end_byte }) a i b in
      subst (λ k. Filled id n k db (insert_pending db id (numbered n (p ∷ ps)) now)) (omega arith)
        (Filled-trans n (length ps) db _ _ first
          (insert_pending-Filled (n + 1) ps _ first.ascending first.ids first.below))

  pub enqueue-Filled :
      (n : ℕ) (ps : List PassageRange) (db : Database)
      → Ascending 0 db.chunks
      → All (λ c. c.chunk_id ≤ db.last_chunk_id) db.chunks
      → All (Below id n) db.chunks
      → Filled id n (length ps) db (enqueue db id ps n now).1
  unfolding enqueue
  enqueue-Filled n [] db a i b = none-Filled db n a i b
  enqueue-Filled n (p ∷ ps) db a i b = insert_pending-Filled n (p ∷ ps) db a i b
