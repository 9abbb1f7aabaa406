-- ===== src/UploadService/Accounting.antt =====
-- app/services/upload_service.py: the two tables through the transactions of the service, on every
-- branch.
use rag_semantic_search.Prelude.{
  ℕ, ◌+◌, ◌≡◌, refl, ◌⊎◌, inl, inr, not, ◌&&◌, some, List, arith, ltb, ◌==◌, length, String,
  Bool-cases, Option-cases,
}
use rag_semantic_search.Config.{Settings}
use rag_semantic_search.Config.Sizing.{Floats, Sizes, passage_size_for}
use rag_semantic_search.Validators.{looks_like_binary}
use rag_semantic_search.Database.{UploadStatus, FileRecord, Database}
use rag_semantic_search.Errors.{ok, Result-cases}
use rag_semantic_search.Files.{
  get, get_owned, update_file, update_after_chunk, set_after_chunk, mark_finalizing, set_finalizing,
  mark_completed, new_file, create, delete,
}
use rag_semantic_search.Files.Lookup.{get-get_owned}
use rag_semantic_search.Storage
use rag_semantic_search.Chunker.{PassageRange, feed, flush}
use rag_semantic_search.JobQueue.{enqueue, is_completed}
use rag_semantic_search.JobQueue.Enqueue.{enqueue-next}
use rag_semantic_search.JobQueue.Counters.{recount}
use rag_semantic_search.JobQueue.Soundness.{IsSound, Adds, enqueue-IsSound}
use rag_semantic_search.JobQueue.Rekeying.{Rekeyed-IsSound, update_file-Rekeyed}
use rag_semantic_search.JobQueue.Registering.{with_file, with_file-IsSound}
use rag_semantic_search.World.{World, Exec}
use rag_semantic_search.UploadService.{
  append_chunk, buffer_of, is_closed, begin_completion, completion_buffer, promote, end_completion,
  create_upload, delete_upload,
}

-- A transaction leaves the tables alone, or adds passages to a file together with a write of its row.
pub data Accounted (id : String) (w : World) (db' : Database) : Type 0 where
  untouched : db' ≡ w.db → Accounted id w db'
  added :
      (r : FileRecord) (ps : List PassageRange) (set : FileRecord → FileRecord)
      → get w.db id ≡ some r
      → ((x : FileRecord) → (set x).file_id ≡ x.file_id)
      → ((x : FileRecord) → Adds r.next_sequence (length ps) x (set x))
      → db' ≡ update_file (enqueue w.db id ps r.next_sequence w.now).1 id set
      → Accounted id w db'

pub Accounted-IsSound :
    (id : String) (w : World) {db' : Database} → Accounted id w db' → IsSound w.db → IsSound db'
Accounted-IsSound id w (untouched e) h = rw e h
Accounted-IsSound id w (added r ps set row keeps adds e) h =
    rw e (enqueue-IsSound w.db id ps w.now r.next_sequence set keeps adds r h row refl).1

module _ (f : Floats) (c : Settings) (id owner : String) (offset : ℕ) (body : List ℕ)
    (w : World) where
  append_chunk_sized :
      (r : FileRecord) (sizes : Sizes)
      → get_owned w.db id owner ≡ ok r
      → passage_size_for f c r.total_size ≡ ok sizes
      → Accounted id w (append_chunk f c id owner offset body w).1.db
  unfolding append_chunk update_after_chunk
  append_chunk_sized r sizes found given = elim (Option-cases (feed (buffer_of c r sizes) body)) [
    | inl diverges ↦ untouched (ground arith)
    | inr ((ps, buffer), split) ↦
        elim (Bool-cases (
          not (ltb c.max_chunk_bytes (length body))
          && not (is_closed r.upload_status)
          && (offset == r.bytes_received)
          && not (ltb c.max_file_bytes (r.bytes_received + length body))
          && not (offset == 0 && looks_like_binary body))) [
            | inl taken ↦
                added r ps
                  (set_after_chunk (r.bytes_received + length body) (length ps)
                    (enqueue w.db id ps r.next_sequence w.now).0 buffer.buffer w.now)
                  (get-get_owned w.db id owner r found) (λ x. refl)
                  (λ x. (refl, refl, refl, enqueue-next w.db id ps r.next_sequence w.now))
                  (ground arith)
            | inr refused ↦ untouched (ground arith)
          ]
  ]

  append_chunk_found :
      (r : FileRecord)
      → get_owned w.db id owner ≡ ok r
      → Accounted id w (append_chunk f c id owner offset body w).1.db
  unfolding append_chunk
  append_chunk_found r found = elim (Result-cases (passage_size_for f c r.total_size)) [
    | inl (sizes, given) ↦ append_chunk_sized r sizes found given
    | inr (e, raised) ↦ untouched (ground arith)
  ]

  -- A request to append a chunk, on every branch.
  pub append_chunk-Accounted : Accounted id w (append_chunk f c id owner offset body w).1.db
  unfolding append_chunk
  append_chunk-Accounted = elim (Result-cases (get_owned w.db id owner)) [
    | inl (r, found) ↦ append_chunk_found r found
    | inr (e, missing) ↦ untouched (ground arith)
  ]

module _ (c : Settings) (id owner : String) (w : World) where
  begin_completion_found :
      (r : FileRecord)
      → get_owned w.db id owner ≡ ok r
      → Accounted id w (begin_completion c id owner w).1.db
  unfolding begin_completion mark_finalizing
  begin_completion_found r found = elim (Option-cases (flush (completion_buffer c r))) [
    | inl diverges ↦ untouched (ground arith)
    | inr ((ps, buffer), split) ↦
        elim (Bool-cases (not (is_completed r.upload_status) && not (r.bytes_received == 0))) [
          | inl taken ↦
              added r ps
                (set_finalizing (length ps) (enqueue w.db id ps r.next_sequence w.now).0
                  r.bytes_received w.now)
                (get-get_owned w.db id owner r found) (λ x. refl)
                (λ x. (refl, refl, refl, enqueue-next w.db id ps r.next_sequence w.now))
                (ground arith)
          | inr refused ↦ untouched (ground arith)
        ]
  ]

  -- The first transaction of a completion, on every branch.
  pub begin_completion-Accounted : Accounted id w (begin_completion c id owner w).1.db
  unfolding begin_completion
  begin_completion-Accounted = elim (Result-cases (get_owned w.db id owner)) [
    | inl (r, found) ↦ begin_completion_found r found
    | inr (e, missing) ↦ untouched (ground arith)
  ]

pub promote-db : (id : String) (w : World) → (promote id w).1.db ≡ w.db
unfolding promote
promote-db id w = ground arith

pub end_completion-IsSound :
    (id : String) (w : World) → IsSound w.db → IsSound (end_completion id w).1.db
unfolding end_completion mark_completed
end_completion-IsSound id w h =
    let set : FileRecord → FileRecord =
      λ r. record r { upload_status = UploadStatus.completed; updated_at = w.now } in
    Rekeyed-IsSound (update_file-Rekeyed w.db id set (λ r. refl) (λ r. refl))
      (recount w.db id set w.db.chunks (λ r. refl) h.counted h.counted.ascending
        (λ r k. record { total = k.total; indexed = k.indexed; failed = k.failed }) (λ j r ne k. k))
      h

pub create_upload-IsSound :
    (id owner filename : String) (total_size : ℕ) (w : World)
    → IsSound w.db
    → IsSound (create_upload id owner filename total_size w).1.db
unfolding create_upload create
create_upload-IsSound id owner filename total_size w h = elim (Option-cases (get w.db id)) [
  | inl fresh ↦
      let r = new_file id owner filename total_size w.now in
      let e : (create_upload id owner filename total_size w).1.db ≡ with_file w.db r =
        ground arith in
      rw e (with_file-IsSound w.db r fresh h (refl, refl, refl))
  | inr (r, taken) ↦
      let e : (create_upload id owner filename total_size w).1.db ≡ w.db = ground arith in rw e h
]

-- A deletion takes the file away or leaves the tables alone. The collection is not in the tables.
pub delete_upload_db :
    (drop : String → Exec (Unit {0})) (id owner : String) (w : World)
    → ((v : World) → (drop id v).1.db ≡ v.db)
    → ((delete_upload drop id owner w).1.db ≡ w.db)
      ⊎ ((delete_upload drop id owner w).1.db ≡ delete w.db id)
unfolding delete_upload
delete_upload_db drop id owner w outside = elim (Result-cases (get_owned w.db id owner)) [
  | inl (r, found) ↦ inr (
      ground
        (arith, outside (record w { db = delete w.db id; disk = Storage.delete_all w.disk id })))
  | inr (e, missing) ↦ inl (ground arith)
]
