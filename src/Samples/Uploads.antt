-- ===== src/Samples/Uploads.antt =====
-- An upload of a few bytes, with a partial file that is ahead of the database.
use rag_semantic_search.Prelude.{
  ℕ, ◌≡◌, refl, inl, Option, none, some, List, [], ◌∷◌, ◌++◌, arith, String, str_eq, if◌then◌else◌,
  true, false, take, drop,
}
use rag_semantic_search.Config.{defaults}
use rag_semantic_search.Config.Sizing.{sizes_for, passage_size_for}
use rag_semantic_search.Config.Sizing.Exact.{exact}
use rag_semantic_search.Database.{UploadStatus, ProcessingStatus, FileRecord}
use rag_semantic_search.Errors.{DomainError, Raised, ok, err}
use rag_semantic_search.Files.{get, get_owned}
use rag_semantic_search.Utf8.{decode_replace}
use rag_semantic_search.Storage.{Disk, put, finalize, read_range}
use rag_semantic_search.Storage.Reads.{read_range-finalize}
use rag_semantic_search.UploadService.Completing.{
  Completed, complete_upload-Completed, complete_upload-complete_upload,
}
use rag_semantic_search.UploadService.Retrying.{
  append_chunk-append_chunk, append_chunk-complete_upload,
}
use rag_semantic_search.Chunker.{line_buffer}
use rag_semantic_search.World.{World}
use rag_semantic_search.UploadService.{append_chunk, complete_upload}
use rag_semantic_search.UploadService.Appending.{
  Uploading, Appended, append_chunk_refused, append_chunk_closed, append_chunk_mismatch,
  append_chunk_accepted,
}

-- "alpha b" is in; the rest of the line was written, and then the process died
abbrev pub sent : List ℕ
sent = 97 ∷ 108 ∷ 112 ∷ 104 ∷ 97 ∷ 32 ∷ 98 ∷ []

abbrev pub lost : List ℕ
lost = 101 ∷ 116 ∷ []

abbrev pub body : List ℕ
body = 101 ∷ 116 ∷ 97 ∷ 10 ∷ []

abbrev pub file : UploadStatus → FileRecord
file status = record {
  file_id = "f1";
  owner_id = "ann";
  filename = "server.log";
  total_size = 11;
  bytes_received = 7;
  upload_status = status;
  processing_status = ProcessingStatus.pending;
  chunks_total = 0;
  chunks_indexed = 0;
  chunks_failed = 0;
  pending_tail = sent;
  next_sequence = 0;
  error_message = none;
  created_at = 1;
  updated_at = 5;
}

abbrev partial_file : String → Option (List ℕ)
partial_file id = if str_eq id "f1" then some (sent ++ lost) else none

abbrev world : UploadStatus → World
world status = record {
  db = record { files = file status ∷ []; chunks = []; last_chunk_id = 0 };
  disk = record { partial = partial_file; final = λ id. none };
  now = 9;
}

abbrev pub live : World
live = world UploadStatus.interrupted

pub live-Uploading :
    Uploading exact defaults "f1" sent lost 0 0 (file UploadStatus.interrupted) live
unfolding get line_buffer passage_size_for sizes_for
live-Uploading = record {
  row = refl;
  received = refl;
  on_disk = refl;
  not_final = refl;
  tail = record {
    content = refl;
    after_start = omega arith;
    no_gap = omega arith;
    within = omega arith;
  };
  live = refl;
}

append_chunk_accepted_example :
    Appended exact defaults "f1" sent body 0 0
      (file UploadStatus.interrupted)
      live
      (append_chunk exact defaults "f1" "ann" 7 body live)
unfolding line_buffer passage_size_for sizes_for
append_chunk_accepted_example =
    append_chunk_accepted exact defaults "f1" "ann" sent lost body 0 0
      (file UploadStatus.interrupted) live live-Uploading (omega arith) refl
      (omega arith, omega arith, inl (λ e. cc))

append_chunk_refused_example : (append_chunk exact defaults "f1" "bob" 7 body live).1 ≡ live
unfolding append_chunk get_owned
append_chunk_refused_example =
    append_chunk_refused exact defaults "f1" "bob" 7 body live (DomainError.file_not_found "f1")
      refl

append_chunk_closed_example :
    (append_chunk exact defaults "f1" "ann" 0 body (world UploadStatus.finalizing)).0
    ≡ err (Raised.domain (DomainError.upload_already_done UploadStatus.finalizing))
unfolding get_owned
append_chunk_closed_example =
    append_chunk_closed exact defaults "f1" "ann" 0 body (world UploadStatus.finalizing)
      (file UploadStatus.finalizing) (omega arith) refl refl

append_chunk_mismatch_example :
    (append_chunk exact defaults "f1" "ann" 5 body live).0
    ≡ err (Raised.domain (DomainError.offset_mismatch 7 5))
unfolding get_owned
append_chunk_mismatch_example =
    append_chunk_mismatch exact defaults "f1" "ann" 5 body live (file UploadStatus.interrupted)
      (omega arith) refl refl (omega arith)

complete_upload-Completed_example :
    Completed defaults "f1" sent lost 0 0
      (file UploadStatus.interrupted)
      live
      (complete_upload defaults "f1" "ann" live)
unfolding line_buffer
complete_upload-Completed_example =
    complete_upload-Completed exact defaults "f1" "ann" sent lost 0 0
      (file UploadStatus.interrupted) live live-Uploading (omega arith) refl (λ e. cc)

complete_upload-complete_upload_example :
    complete_upload defaults "f1" "ann" (complete_upload defaults "f1" "ann" live).1
    ≡ complete_upload defaults "f1" "ann" live
unfolding line_buffer
complete_upload-complete_upload_example =
    complete_upload-complete_upload exact defaults "f1" "ann" sent lost 0 0
      (file UploadStatus.interrupted) live live-Uploading (omega arith) refl (λ e. cc)

append_chunk-append_chunk_example :
    append_chunk exact defaults "f1" "ann" 7 body
      (append_chunk exact defaults "f1" "ann" 7 body live).1
    ≡ (
      err (Raised.domain (DomainError.offset_mismatch 11 7)),
      (append_chunk exact defaults "f1" "ann" 7 body live).1,
    )
unfolding line_buffer passage_size_for sizes_for
append_chunk-append_chunk_example =
    append_chunk-append_chunk exact defaults "f1" "ann" sent lost body 0 0
      (file UploadStatus.interrupted) live live-Uploading (omega arith) refl
      (omega arith, omega arith, inl (λ e. cc)) (λ e. cc)

append_chunk-complete_upload_example :
    append_chunk exact defaults "f1" "ann" 7 body (complete_upload defaults "f1" "ann" live).1 ≡ (
      err (Raised.domain (DomainError.upload_already_done UploadStatus.completed)),
      (complete_upload defaults "f1" "ann" live).1,
    )
unfolding line_buffer
append_chunk-complete_upload_example =
    append_chunk-complete_upload exact defaults "f1" "ann" sent lost body 0 0
      (file UploadStatus.interrupted) live 7 live-Uploading (omega arith) refl (λ e. cc)
      (omega arith)

renamed : Disk
renamed = record {
  partial = put live.disk.partial "f1" none;
  final = put live.disk.final "f1" (some (sent ++ lost));
}

-- A reader that looks for the file before the rename, and opens it after.
read_range-finalize_example :
    read_range live.disk renamed renamed renamed "f1" 2 7
    ≡ ok (decode_replace (take 5 (drop 2 sent)))
unfolding finalize renamed
read_range-finalize_example =
    read_range-finalize live.disk renamed "f1" (sent ++ lost) 2 7 false true true true refl refl
      refl (λ h. absurd (ground arith), λ h. refl, λ h. refl)
