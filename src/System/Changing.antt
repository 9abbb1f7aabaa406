-- ===== src/System/Changing.antt =====
-- app/services/upload_service.py and app/tasks/job_queue.py: a job that a worker holds, through what
-- others do to the tables.
use rag_semantic_search.Prelude.{
  ℕ, ◌≤◌, ◌≡◌, ◌≢◌, refl, sym, ap, ◌∙◌, inl, inr, Bool, true, false, some, none, List, [], ◌∷◌,
  arith, ◌==◌, select, String, str_eq, eq_iff, is_in, Option-cases, Bool-cases, length,
  if◌then◌else◌,
}
use rag_semantic_search.Database.{Time, UploadStatus, FileRecord, ChunkRow, Database}
use rag_semantic_search.Chunker.{PassageRange}
use rag_semantic_search.Files
use rag_semantic_search.Files.{get, update_file, new_file, create, mark_completed, find_file}
use rag_semantic_search.Files.Lookup.{get-update_file, find_file-select_ne}
use rag_semantic_search.Chunks.Counts.{row, Ascending, row-below}
use rag_semantic_search.JobQueue.{ChunkJob, enqueue}
use rag_semantic_search.JobQueue.Enqueue.{get-enqueue}
use rag_semantic_search.JobQueue.Filling.{Filled}
use rag_semantic_search.JobQueue.Soundness.{IsSound, enqueue-IsSound, get-update_file-none}
use rag_semantic_search.JobQueue.Rekeying.{Rekeyed, update_file-Rekeyed}
use rag_semantic_search.JobQueue.Registering.{
  with_file, get-with_file, get-with_file-none, get-delete,
}
use rag_semantic_search.World.{World}
use rag_semantic_search.UploadService.{create_upload, end_completion}
use rag_semantic_search.UploadService.Accounting.{Accounted, untouched, added}
use rag_semantic_search.System.Holding.{InHand}

pub row-select-none :
    (p : ChunkRow → Bool) (i : ℕ) (cs : List ChunkRow)
    → row i cs ≡ none
    → row i (select p cs) ≡ none
unfolding row select
row-select-none p i [] e = refl
row-select-none p i (c ∷ cs) e = ground (arith, row-select-none p i cs)

pub row-select-some :
    (p : ChunkRow → Bool) (i : ℕ) (cs : List ChunkRow) (c : ChunkRow)
    → row i cs ≡ some c
    → p c ≡ true
    → row i (select p cs) ≡ some c
unfolding row select
row-select-some p i [] c e t = e
row-select-some p i (d ∷ cs) c e t = ground (arith, row-select-some p i cs c)

pub row-select_out :
    (p : ChunkRow → Bool) (i lo : ℕ) (cs : List ChunkRow) (c : ChunkRow)
    → Ascending lo cs
    → row i cs ≡ some c
    → p c ≡ false
    → row i (select p cs) ≡ none
unfolding row select
row-select_out p i lo [] c a e t = refl
row-select_out p i lo (d ∷ cs) c a e t = elim (Bool-cases (d.chunk_id == i)) [
  | inl hit ↦
      let same : d ≡ c = ground arith in
      let below : i ≤ d.chunk_id = ground arith in
      ground (arith, ap p same, row-select-none p i cs (row-below i d.chunk_id cs a.1 below))
  | inr miss ↦ ground (arith, row-select_out p i d.chunk_id cs c a.1)
]

module _ (j : ChunkJob) (db : Database) (h : InHand db j) where
  -- through a deletion
  pub delete-InHand : (id : String) → IsSound db → InHand (Files.delete db id) j
  unfolding Files.delete get
  delete-InHand id sound = record {
    known = h.known;
    there = λ r e.
        let (ne, there) = get-delete db id j.file_id r e in
        let (c, found, f, s) = (h.there r there).0 in
        (
          (
            c,
            row-select-some _ j.chunk_id db.chunks c found (ground (arith, eq_iff c.file_id id)),
            f,
            s,
          ),
          unfold is_in in refl,
          tt,
        );
    gone = λ e. elim (Option-cases (get db j.file_id)) [
      | inl gone ↦ row-select-none _ j.chunk_id db.chunks (h.gone gone)
      | inr (r, there) ↦
          let (c, found, f, s) = (h.there r there).0 in
          row-select_out _ j.chunk_id 0 db.chunks c sound.counted.ascending found
            (mine e r there c f)
    ];
  }
    where
      mine :
          get (Files.delete db id) j.file_id ≡ none
          → (r : FileRecord) → get db j.file_id ≡ some r
          → (c : ChunkRow) → c.file_id ≡ j.file_id
          → (if str_eq c.file_id id then false else true) ≡ false
      mine e r there c f = elim (Bool-cases (str_eq c.file_id id)) [
        | inl same ↦ ground arith
        | inr other ↦
            let ne : j.file_id ≢ id = λ q. ground (arith, eq_iff c.file_id id, f ∙ q) in
            absurd (ground (arith, sym (find_file-select_ne id j.file_id db.files ne) ∙ e))
      ]

  -- through a registration under another id
  with_file-InHand :
      (r : FileRecord) → get db r.file_id ≡ none → j.file_id ≢ r.file_id → InHand (with_file db r) j
  with_file-InHand r fresh ne = record {
    known = h.known;
    there = λ r' e. elim (get-with_file db r fresh j.file_id r' e) [
      | inl (same, new) ↦ absurd (ne same)
      | inr old ↦ h.there r' old
    ];
    gone = λ e. h.gone (get-with_file-none db r fresh j.file_id e);
  }

  module _ (id : String) (ps : List PassageRange) (now : Time) (n : ℕ)
      (set : FileRecord → FileRecord) (keeps : (x : FileRecord) → (set x).file_id ≡ x.file_id) where
    abbrev filled : Database
    filled = (enqueue db id ps n now).1

    -- through passages that are queued
    enqueue-InHand : Filled id n (length ps) db filled → InHand (update_file filled id set) j
    unfolding update_file
    enqueue-InHand f = record {
      known = omega (arith, h.known, f.last);
      there = λ r' e.
          let (x, there, changed) = get-update_file filled id j.file_id set r' keeps e in
          let held = h.there x (sym (get-enqueue db id ps n now j.file_id) ∙ there) in
          let (c, found, mine, s) = held.0 in
          ((c, f.rows j.chunk_id c found, mine, s), held.1, held.2);
      gone = λ e. f.no_rows j.chunk_id h.known (
          h.gone (
            sym (get-enqueue db id ps n now j.file_id)
            ∙ get-update_file-none filled id j.file_id set keeps e));
    }

pub Accounted-InHand :
    (j : ChunkJob) (id : String) (w : World) {db' : Database}
    → IsSound w.db
    → Accounted id w db'
    → InHand w.db j
    → InHand db' j
Accounted-InHand j id w sound (untouched e) h = rw e h
Accounted-InHand j id w sound (added r ps set row keeps adds e) h =
    let filled =
      (enqueue-IsSound w.db id ps w.now r.next_sequence set keeps adds r sound row refl).0 in
    rw e (enqueue-InHand j w.db h id ps w.now r.next_sequence set keeps filled)

pub create_upload-InHand :
    (j : ChunkJob) (id owner filename : String) (total_size : ℕ) (w : World)
    → j.file_id ≢ id
    → InHand w.db j
    → InHand (create_upload id owner filename total_size w).1.db j
unfolding create_upload create
create_upload-InHand j id owner filename total_size w ne h = elim (Option-cases (get w.db id)) [
  | inl fresh ↦
      let r = new_file id owner filename total_size w.now in
      let e : (create_upload id owner filename total_size w).1.db ≡ with_file w.db r =
        ground arith in
      rw e (with_file-InHand j w.db h r fresh ne)
  | inr (r, taken) ↦
      let e : (create_upload id owner filename total_size w).1.db ≡ w.db = ground arith in rw e h
]

pub end_completion-Rekeyed :
    (id : String) (w : World)
    → Rekeyed w.db (end_completion id w).1.db × ((end_completion id w).1.db.chunks ≡ w.db.chunks)
unfolding end_completion mark_completed update_file
end_completion-Rekeyed id w = (
  update_file-Rekeyed w.db id
      (λ r. record r { upload_status = UploadStatus.completed; updated_at = w.now }) (λ r. refl)
      (λ r. refl),
  refl,
)
