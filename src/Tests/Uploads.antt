-- ===== src/Tests/Uploads.antt =====
-- Uploads: node/putHandle.go and node/putChunksHandle.go.
use de_oss.Base.{◌≡◌, refl, true, false, [], ◌∷◌, none, some, arith, string_eq}
use text.Mathlib.TextEquality.{eq_iff}
use de_oss.Base.Dict
use de_oss.Chunks.Save.{entry_eq, named, whole}
use de_oss.Track.{write_track_file, no_create}
use de_oss.Track.Atomic.{write_track_file-atomic}
use de_oss.Upload.Dedup.{Upload, deduplication}
use de_oss.Upload.Dedup.Exact.{IsVouched, deduplication-known}
use de_oss.Upload.Process.{Whole, file_process}
use de_oss.Upload.Process.Recorded.{IsAccounted, file_process-IsAccounted}
use de_oss.Upload.PutChunks.{ChunkUpload, ChunkFaults, put_chunks}
use de_oss.Upload.PutChunks.Entry.{put_chunks-IsFree}
use de_oss.Upload.Form.{form_file}
use de_oss.Tests.Sample.{
  chain, tools, no_process_faults, server, hash, record_bytes, crypto, open_access, library,
  no_faults,
}

abbrev upload : Whole
upload = record {
  filename = "a.txt";
  bucket_name = "bucket";
  account = "alice";
  dir = "up";
  file = named "1";
  cipher = "";
  pkey = "alice";
}

file_process-IsAccounted_example :
    IsAccounted chain tools no_process_faults upload server hash
      (file_process chain tools no_process_faults upload server)
unfolding file_process string_eq entry_eq Dict.lookup Dict.insert Dict.erase
file_process-IsAccounted_example =
    file_process-IsAccounted chain tools no_process_faults upload server hash
      (ground (arith, eq_iff "tmp" hash)) refl

abbrev stored_upload : Upload
stored_upload = record {
  pkey = "alice";
  segment_info = [];
  roothash = "stored";
  filename = "a.txt";
  bucket_name = "bucket";
  file_size = 3;
}

deduplication-known_example : IsVouched chain (λ _. record_bytes) whole stored_upload server
unfolding deduplication string_eq
deduplication-known_example =
    deduplication-known chain (λ _. record_bytes) whole stored_upload server refl

write_track_file-atomic_example :
    Dict.lookup hash (write_track_file no_create "tmp" hash record_bytes ((hash, 1 ∷ []) ∷ [])).1
    ≡ some (1 ∷ [])
unfolding write_track_file Dict.lookup string_eq
write_track_file-atomic_example =
    write_track_file-atomic no_create "tmp" hash record_bytes ((hash, 1 ∷ []) ∷ []) hash
      (ground (arith, eq_iff hash "tmp"))

abbrev chunk_upload : ChunkUpload
chunk_upload = record {
  params = record {
    account = "alice";
    eth_account = "";
    message = "m";
    signature = "good";
    bucket_name = "bucket";
    cipher = "";
  };
  block_idx = 0;
  block_num = 2;
  total_size = 6;
  filename = "a.txt";
  content_length = 3;
  form = form_file "a.txt" (1 ∷ 2 ∷ 3 ∷ []);
  now = 10;
}

abbrev chunk_faults : ChunkFaults
chunk_faults = record {
  mem = none;
  free = none;
  mkdir = false;
  readable = λ _. true;
  removal = λ _ _. none;
  store = no_faults;
  process = no_process_faults;
}

put_chunks-IsFree_example :
    (put_chunks chain tools crypto open_access "gateway" library
      (λ n. some n)
      (λ n. some n)
      chunk_faults
      chunk_upload
      server).1.chunk_req
    ≡ []
put_chunks-IsFree_example =
    put_chunks-IsFree chain tools crypto open_access "gateway" library (λ n. some n) (λ n. some n)
      chunk_faults chunk_upload server refl
