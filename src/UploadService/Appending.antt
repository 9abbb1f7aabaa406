-- ===== src/UploadService/Appending.antt =====
-- app/services/upload_service.py, `append_chunk`: what it refuses, and what it leaves behind.
use rag_semantic_search.Prelude.{
  ℕ, ◌+◌, ◌≤◌, ◌≡◌, refl, ◌≢◌, ◌⊎◌, inl, inr, true, false, Option, none, some, List, [], ◌++◌,
  arith, String, str_eq, str_refl, length-append, take-length_append, append-eq-nil,
  append-eq_of_length, take, subst, sym, ap, ◌∙◌, ◌==◌, length, ltb, Bool-cases, Option-cases,
}
use rag_semantic_search.Config.{Settings}
use rag_semantic_search.Config.Sizing.{Floats, Sizes, passage_size_for}
use rag_semantic_search.Validators.{looks_like_binary}
use rag_semantic_search.Database.{FileRecord, Database, Time}
use rag_semantic_search.Errors.{Result-cases, DomainError, Raised, Result, ok, err}
use rag_semantic_search.Files.{get, get_owned, update_after_chunk, set_after_chunk, update_file}
use rag_semantic_search.Files.Lookup.{get-update_file_self, get_owned-get}
use rag_semantic_search.JobQueue.Enqueue.{get-enqueue}
use mathlib.Core.Option
use mathlib.Core.List.{append-nil}
use rag_semantic_search.Storage
use rag_semantic_search.Storage.{Disk, or_empty}
use rag_semantic_search.Chunker.{PassageRange, LineBuffer, feed}
use rag_semantic_search.Chunker.{line_buffer}
use rag_semantic_search.Chunker.Cut.{IsSized}
use rag_semantic_search.Chunker.Coverage.{Holds, Tiles, limit_of, Runs}
use rag_semantic_search.Chunker.Session.{feed-Runs, fed, restarted-Holds}
use rag_semantic_search.JobQueue.{enqueue}
use rag_semantic_search.World.{World}
use rag_semantic_search.UploadService.{
  append_chunk, is_closed, append_buffer, buffer_of, or_ones, reconcile, record_chunk,
}

module _ (f : Floats) (c : Settings) (id owner : String) (offset : ℕ) (body : List ℕ)
    (w : World) where
  -- A chunk that is refused with a domain error changes nothing, neither the database nor the disk.
  pub append_chunk_refused :
      (e : DomainError)
      → (append_chunk f c id owner offset body w).0 ≡ err (Raised.domain e)
      → (append_chunk f c id owner offset body w).1 ≡ w
  unfolding append_chunk passage_size_for
  append_chunk_refused e h = ground arith

  -- A chunk for an upload that is complete or being renamed is refused, whatever its offset.
  pub append_chunk_closed :
      (r : FileRecord)
      → length body ≤ c.max_chunk_bytes
      → get_owned w.db id owner ≡ ok r
      → is_closed r.upload_status ≡ true
      → (append_chunk f c id owner offset body w).0
        ≡ err (Raised.domain (DomainError.upload_already_done r.upload_status))
  unfolding append_chunk
  append_chunk_closed r small found closed = ground arith

  -- An offset other than the number of bytes received is answered with that number.
  pub append_chunk_mismatch :
      (r : FileRecord)
      → length body ≤ c.max_chunk_bytes
      → get_owned w.db id owner ≡ ok r
      → is_closed r.upload_status ≡ false
      → offset ≢ r.bytes_received
      → (append_chunk f c id owner offset body w).0
        ≡ err (Raised.domain (DomainError.offset_mismatch r.bytes_received offset))
  unfolding append_chunk
  append_chunk_mismatch r small found live other = ground arith

-- What the service knows of an upload to which `stream` has been sent. The partial file may be ahead
-- of the database, by the bytes of a request that died before its commit.
pub record Uploading (f : Floats) (c : Settings) (id : String) (stream extra : List ℕ) (s e : ℕ)
    (r : FileRecord) (w : World) : Type 0 where
  pub row : get w.db id ≡ some r
  pub received : r.bytes_received ≡ length stream
  pub on_disk : or_empty (w.disk.partial id) ≡ stream ++ extra
  pub not_final : w.disk.final id ≡ none
  pub tail : Holds stream s e (append_buffer f c r)
  pub live : is_closed r.upload_status ≡ false

module _ (id : String) (stream extra : List ℕ) (d : Disk)
    (on_disk : or_empty (d.partial id) ≡ stream ++ extra) (not_final : d.final id ≡ none) where
  reconcile_missing :
      d.partial id ≡ none → or_empty ((reconcile d id (length stream)).partial id) ≡ stream
  unfolding reconcile Storage.truncate_to
  reconcile_missing missing =
      let empty : stream ++ extra ≡ [] = sym on_disk ∙ ap or_empty missing in
      ground (arith, append-eq-nil stream extra empty)

  reconcile_present :
      (bytes : List ℕ)
      → d.partial id ≡ some bytes
      → or_empty ((reconcile d id (length stream)).partial id) ≡ stream
  unfolding reconcile Storage.current_size Storage.truncate_to
  reconcile_present bytes there =
      let whole : bytes ≡ stream ++ extra = ap or_empty (sym there) ∙ on_disk in
      let long : length bytes ≡ length stream + length extra =
        ap length whole ∙ length-append stream extra in
      let cut : take (length stream) bytes ≡ stream =
        ap (take (length stream)) whole ∙ take-length_append stream extra in
      elim (Bool-cases (length bytes == length stream)) [
        | inl same ↦
            let eq : length bytes ≡ length stream = ground arith in
            let all : bytes ≡ stream =
              whole ∙ append-eq_of_length stream extra (ap length (sym whole) ∙ eq) in
            rw (there, reconcile, Storage.current_size, same) (ap or_empty there ∙ all)
        | inr ahead ↦
            let behind : ltb (length stream) (length bytes) ≡ true = ground arith in
            rw (there, reconcile, Storage.current_size, ahead)
              (rw (there, Storage.truncate_to, behind, str_refl id) cut)
      ]

  reconcile_trims : or_empty ((reconcile d id (length stream)).partial id) ≡ stream
  reconcile_trims = elim (Option-cases (d.partial id)) [
    | inl missing ↦ reconcile_missing missing
    | inr (bytes, there) ↦ reconcile_present bytes there
  ]

  reconcile-final : (reconcile d id (length stream)).final id ≡ none
  unfolding reconcile Storage.truncate_to
  reconcile-final = ground arith

abbrev pub Accepts : Settings → List ℕ → List ℕ → Type 0
Accepts c stream body =
    (length body ≤ c.max_chunk_bytes)
    × (length stream + length body ≤ c.max_file_bytes)
    × ((stream ≢ []) ⊎ (looks_like_binary body ≡ false))

-- What an accepted chunk leaves behind.
pub record Appended (f : Floats) (c : Settings) (id : String) (stream body : List ℕ) (s e : ℕ)
    (r : FileRecord) (w : World) (out : Result (Option FileRecord) × World) : Type 0 where
  pub passages : List PassageRange
  pub s' : ℕ
  pub e' : ℕ
  pub r' : FileRecord
  pub returns : out.0 ≡ ok (some r')
  pub owner_kept : r'.owner_id ≡ r.owner_id
  pub tiles : Tiles (limit_of (append_buffer f c r)) s e passages s' e'
  pub rows : out.1.db.chunks ≡ (enqueue w.db id passages r.next_sequence w.now).1.chunks
  pub uploading : Uploading f c id (stream ++ body) [] s' e' r' out.1

-- A buffer that is sized was made from sizes that are given.
pub passage_sizes :
    (f : Floats) (c : Settings) (r : FileRecord)
    → IsSized (append_buffer f c r)
    → (sizes : Sizes) × (passage_size_for f c r.total_size ≡ ok sizes)
unfolding line_buffer
passage_sizes f c r sized = elim (Result-cases (passage_size_for f c r.total_size)) [
  | inl given ↦ given
  | inr (e, raised) ↦ absurd (ground (arith, raised, sized))
]

module _ (f : Floats) (c : Settings) (id owner : String) (stream body : List ℕ) (r : FileRecord)
    (w : World) where
  append_chunk-record_chunk :
      (split : List PassageRange × LineBuffer)
      → get_owned w.db id owner ≡ ok r
      → is_closed r.upload_status ≡ false
      → r.bytes_received ≡ length stream
      → Accepts c stream body
      → (sizes : Sizes) → passage_size_for f c r.total_size ≡ ok sizes
      → feed (buffer_of c r sizes) body ≡ some split
      → append_chunk f c id owner (length stream) body w
        ≡ record_chunk f c r id body split (record w {
          disk = (Storage.append_chunk (reconcile w.disk id r.bytes_received) id body).1;
        })
  unfolding append_chunk
  append_chunk-record_chunk split found live received accepts sizes given fed = ground arith

partial-append_chunk :
    (d : Disk) (id : String) (stream body : List ℕ)
    → or_empty (d.partial id) ≡ stream
    → or_empty ((Storage.append_chunk d id body).1.partial id) ≡ stream ++ body
unfolding Storage.append_chunk
partial-append_chunk d id stream body h = rw (str_refl id) (ap (λ xs. xs ++ body) h)

final-append_chunk :
    (d : Disk) (id : String) (body : List ℕ)
    → (Storage.append_chunk d id body).1.final id ≡ d.final id
unfolding Storage.append_chunk
final-append_chunk d id body = refl

-- The row as an accepted chunk leaves it.
abbrev appended : FileRecord → List ℕ → World → List PassageRange × LineBuffer → String → FileRecord
appended r body w (passages, buffer) id =
    set_after_chunk (r.bytes_received + length body) (length passages)
      (enqueue w.db id passages r.next_sequence w.now).0 buffer.buffer w.now r

get-record_chunk :
    (db : Database) (id : String) (passages : List PassageRange) (r : FileRecord) (n m k l : ℕ)
    (tail : List ℕ) (now : Time)
    → get db id ≡ some r
    → get (update_after_chunk (enqueue db id passages n now).1 id m k l tail now) id
      ≡ some (set_after_chunk m k l tail now r)
unfolding update_after_chunk
get-record_chunk db id passages r n m k l tail now e =
    get-update_file_self _ id (set_after_chunk m k l tail now) (λ x. refl)
    ∙ ap (Option.map (set_after_chunk m k l tail now)) (get-enqueue db id passages n now id ∙ e)

module _ (f : Floats) (c : Settings) (id owner : String) (stream extra body : List ℕ) (s e : ℕ)
    (r : FileRecord) (w : World) where
  abbrev written : Disk
  written = (Storage.append_chunk (reconcile w.disk id r.bytes_received) id body).1

  record_chunk-Appended :
      (run : Runs
        (stream ++ body)
        s
        e
        false
        (fed (append_buffer f c r) body)
        (feed (append_buffer f c r) body))
      → Uploading f c id stream extra s e r w
      → Appended f c id stream body s e r w
          (record_chunk f c r id body (run.passages, run.end_state) (record w { disk = written }))
  unfolding update_after_chunk update_file
  record_chunk-Appended run u = record {
    passages = run.passages;
    s' = run.s';
    e' = run.e';
    r' = appended r body w (run.passages, run.end_state) id;
    returns = ap ok (get-record_chunk w.db id run.passages r _ _ _ _ _ w.now u.row);
    owner_kept = refl;
    tiles = run.tiles;
    rows = refl;
    uploading = record {
      row = get-record_chunk w.db id run.passages r _ _ _ _ _ w.now u.row;
      received = omega (arith, u.received, length-append stream body);
      on_disk =
          partial-append_chunk (reconcile w.disk id r.bytes_received) id stream body
            (rw u.received (reconcile_trims id stream extra w.disk u.on_disk u.not_final))
          ∙ sym (append-nil (stream ++ body));
      not_final =
          final-append_chunk (reconcile w.disk id r.bytes_received) id body
          ∙ rw u.received (reconcile-final id stream extra w.disk u.on_disk u.not_final);
      tail =
          restarted-Holds c _ _ _ _ (stream ++ body) run.s' run.e' run.end_state
            (omega (arith, u.received, length-append stream body)) run.holds;
      live = refl;
    };
  }

  -- A chunk from the owner, at the right offset, within the limits of size and not binary at the
  -- start,
  -- is taken where the sizes of the passages are sane: the bytes on disk are those of the upload
  -- so far and of the
  -- chunk, also where the file was ahead of the database; the row counts them; the passages go on
  -- tiling the upload where the last ones ended, and are queued; and the tail that is kept serves
  -- the
  -- next chunk in the same way.
  pub append_chunk_accepted :
      Uploading f c id stream extra s e r w
      → IsSized (append_buffer f c r)
      → str_eq r.owner_id owner ≡ true
      → Accepts c stream body
      → Appended f c id stream body s e r w (append_chunk f c id owner (length stream) body w)
  append_chunk_accepted u sized owned accepts =
      let (sizes, given) = passage_sizes f c r sized in
      let run = feed-Runs stream body s e (append_buffer f c r) sized u.tail in
      let result =
        append_chunk-record_chunk f c id owner stream body r w (run.passages, run.end_state)
          (get_owned-get w.db id owner r u.row owned) u.live u.received accepts sizes given
          (subst (λ z. feed (buffer_of c r (or_ones z)) body ≡ some (run.passages, run.end_state))
            given run.returns) in
      subst (Appended f c id stream body s e r w) (sym result) (record_chunk-Appended run u)
