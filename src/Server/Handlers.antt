-- ===== src/Server/Handlers.antt =====
-- The handlers of src/server.rs: each calls the store and makes a reply of what it returned.
use castella.Prelude.{ℕ, Option, none, some, Result, Bytes}
use castella.Text.{Text, codes}
use castella.Stream.Flow.{Stream}
use castella.Stream.Library.{Futures, BytesLibrary, IoError, StreamReader}
use castella.Stream.Bandwidth.{BandwidthLimiter}
use castella.Drive
use castella.Drive.{Remote}
use castella.Db
use castella.Store.Cipher.{Aead}
use castella.Store.Operations
use castella.Store.Operations.{Store, Random}
use castella.Server.{
  Error, Reply, Formats, range_argument, head_reply, get_reply, upload_reply, delete_reply,
}

-- The content type without a header.
unfoldable pub content_type_or_default : Option Text → Text
content_type_or_default none = codes "application/octet-stream"
content_type_or_default (some content_type) = content_type

-- `head_file`
unfoldable pub head_file :
    {W D : Type 0} → Formats → Db.Server → ℕ → Store W → Result (Error D) (Reply D) × Store W
unfolding head_reply
head_file formats server key s =
    let (info, s') = Operations.get_info server key s in (head_reply formats info, s')

module _ {W B X J A : Type 0} (formats : Formats) (futures : Futures) (bytes : BytesLibrary)
    (aead : Aead) (reader : StreamReader (Drive.Error X J A)) (remote : Remote W B X J A) where
  -- `get_file`; `range` is the header of the request.
  unfoldable pub get_file :
      Db.Server
      → ℕ
      → Option Text
      → Store W
      → Result (Error (Drive.Error X J A)) (Reply (Drive.Error X J A)) × Store W
  unfolding get_reply range_argument
  get_file server key range s =
      let (got, s') =
        Operations.get futures bytes aead reader remote server key (range_argument range) s in
      (get_reply formats got, s')

module _ {W X J A Y : Type 0} (futures : Futures) (aead : Aead) (reader : StreamReader Y)
    (remote : Remote W (IoError Y) X J A) where
  -- `upload_file`; the servers are those of the search, of a new drive, and of the new file.
  unfoldable pub upload_file :
      Random
      → Db.Server
      → Db.Server
      → Db.Server
      → BandwidthLimiter
      → ℕ
      → Option Text
      → Stream Y Bytes
      → Store W
      → Result (Error (Drive.Error X J A)) (Reply (Drive.Error X J A)) × Store W
  unfolding upload_reply content_type_or_default
  upload_file random searching adding_drive adding limiter size content_type content s =
      let (uploaded, s') =
        Operations.upload futures aead reader remote random searching adding_drive adding limiter
          size (content_type_or_default content_type) content s in
      (upload_reply uploaded, s')

module _ {W B X J A : Type 0} (remote : Remote W B X J A) where
  -- `delete_file`
  unfoldable pub delete_file :
      Db.Server
      → ℕ
      → Store W
      → Result (Error (Drive.Error X J A)) (Reply (Drive.Error X J A)) × Store W
  unfolding delete_reply
  delete_file server key s =
      let (deleted, s') = Operations.delete remote server key s in (delete_reply deleted, s')
