-- ===== src/Samples/Routes.antt =====
-- The routes, on the upload of the other samples, and the texts that they answer with.
use rag_semantic_search.Prelude.{
  false, ℕ, ◌≡◌, refl, inl, inr, true, none, some, [], ◌∷◌, ◌++◌, ◌==◌, arith,
}
use rag_semantic_search.Prelude.Ints.{pos, negsuc}
use rag_semantic_search.Config.{defaults}
use rag_semantic_search.Config.Sizing.{sizes_for, passage_size_for}
use rag_semantic_search.Config.Sizing.Exact.{exact}
use rag_semantic_search.Database.{UploadStatus, FileRecord, init_db}
use rag_semantic_search.Errors.{DomainError}
use rag_semantic_search.Files.{get}
use rag_semantic_search.Chunker.{line_buffer}
use rag_semantic_search.Storage.{empty_disk}
use rag_semantic_search.Status.{to_status}
use rag_semantic_search.UploadService.Appending.{Uploading}
use rag_semantic_search.Http.{unprocessable, reply, failure, message, get_user_id}
use rag_semantic_search.Http.Uploads.{
  Server, upload_chunk, complete_upload, get_status, delete_file,
}
use rag_semantic_search.Http.Searching.{SearchRequest, search_file}
use rag_semantic_search.Http.Hidden.{foreign_hidden}
use rag_semantic_search.Http.Codes.{
  is_chunk_answer, is_later, is_unprocessable, upload_chunk_answer,
}
use rag_semantic_search.Http.Resuming.{received_answer, upload_chunk_resumed}
use rag_semantic_search.Samples.Uploads.{live, live-Uploading, sent, lost, body, file}
use rag_semantic_search.Samples.Callers.{no_index}
use rag_semantic_search.Samples.Batches.{listed}
use rag_semantic_search.Samples.Searches.{one_point, looks}

offset_mismatch_text :
    message (DomainError.offset_mismatch 1024 7)
    ≡ "offset mismatch: expected 1024, got 7. Resume from 1024."
unfolding message
offset_mismatch_text = refl

stripped_user : get_user_id (some "  ann b ") ≡ "ann b"
unfolding get_user_id
stripped_user = refl

blank_user : get_user_id (some "   ") ≡ "anonymous"
unfolding get_user_id
blank_user = refl

abbrev server : Server
server = record { world = live; free = 1 }

-- the same slots, and no upload at all
abbrev empty_server : Server
empty_server = record { world = record { db = init_db; disk = empty_disk; now = 4 }; free = 1 }

abbrev request : SearchRequest
request = record { query = 120 ∷ []; top_k = none }

foreign_hidden_example :
    ((upload_chunk exact defaults "f1" (some "bob") (some (pos 7)) (inr body) server).0
      ≡ (upload_chunk exact defaults "f1" (some "bob") (some (pos 7)) (inr body) empty_server).0)
    × ((complete_upload defaults "f1" (some "bob") server).0
        ≡ (complete_upload defaults "f1" (some "bob") empty_server).0)
    × ((get_status "f1" (some "bob") server).0 ≡ (get_status "f1" (some "bob") empty_server).0)
    × ((delete_file no_index "f1" (some "bob") server).0
        ≡ (delete_file no_index "f1" (some "bob") empty_server).0)
    × (search_file listed one_point defaults looks "f1" request (some "bob") server.world.db []
        ≡ search_file listed one_point defaults looks "f1" request
            (some "bob")
            empty_server.world.db
            [])
unfolding get get_user_id
foreign_hidden_example =
    foreign_hidden listed one_point looks exact defaults no_index server empty_server [] "f1"
      (some "bob") (some (pos 7)) (inr body) request (file UploadStatus.interrupted) refl refl refl
      refl

upload_chunk_answer_example :
    (is_chunk_answer
        (upload_chunk exact defaults "f1" (some "ann") (some (pos 5)) (inr body) server).0
      ≡ true)
    × (is_unprocessable
          (upload_chunk exact defaults "f1" (some "ann") (some (pos 5)) (inr body) server).0
        ≡ false)
    × (is_later (upload_chunk exact defaults "f1" (some "ann") (some (pos 5)) (inr body) server).0
        ≡ (1 == 0))
    × ((upload_chunk exact defaults "f1" (some "ann") (some (pos 5)) (inr body) server).1.free ≡ 1)
upload_chunk_answer_example =
    upload_chunk_answer exact defaults "f1" (inr body) (some (pos 5)) (some "ann") server

-- an offset below zero is refused before the handler
upload_chunk_below_zero :
    upload_chunk exact defaults "f1" (some "ann") (some (negsuc 0)) (inr body) server
    ≡ (unprocessable, server)
unfolding upload_chunk
upload_chunk_below_zero = refl

upload_chunk_resumed_example :
    ((get_status "f1" (some "ann") server).0
      ≡ reply 200 (to_status (file UploadStatus.interrupted)))
    × ((to_status (file UploadStatus.interrupted)).bytes_received ≡ 7)
    × (upload_chunk exact defaults "f1" (some "ann") (some (pos 5)) (inr body) server
        ≡ (failure 409 (message (DomainError.offset_mismatch 7 5)) none, server))
    × (r' : FileRecord) × (s' : ℕ) × (e' : ℕ) × ((upload_chunk exact defaults "f1"
          (some "ann")
          (some (pos 7))
          (inr body)
          server).0
        ≡ received_answer "f1" 11 r')
    × Uploading exact defaults "f1"
        (sent ++ body)
        []
        s'
        e'
        r'
        (upload_chunk exact defaults "f1" (some "ann") (some (pos 7)) (inr body) server).1.world
unfolding line_buffer passage_size_for sizes_for get_user_id
upload_chunk_resumed_example =
    upload_chunk_resumed exact defaults "f1" (some "ann") sent lost body 0 0
      (file UploadStatus.interrupted) server 0 5 live-Uploading (omega arith) refl
      (omega arith, omega arith, inl (λ e. cc)) refl (omega arith)
