-- ===== src/Server/Routes/Handled.antt =====
-- What `then(handler).map(handle_result)` does for each of the routes of src/server.rs.
use castella.Text.{Text, codes}
use castella.Stream.Library.{Futures, BytesLibrary, IoError, StreamReader}
use castella.Stream.Bandwidth.{BandwidthLimiter}
use castella.Drive
use castella.Drive.{Remote}
use castella.Db
use castella.Store.Cipher.{Aead}
use castella.Store.Operations
use castella.Store.Operations.{Store, Random}
use castella.Server.{Reply, Formats, handle_result}
use castella.Server.Handlers
use castella.Server.Routes
use castella.Server.Routes.{Call, get_value}

-- What one call meets: the database at each of its transactions, the upload limiter, and what is drawn
-- at random.
pub record Conditions : Type 0 where
  pub server : Db.Server
  pub adding_drive : Db.Server
  pub adding : Db.Server
  pub limiter : BandwidthLimiter
  pub random : Random

module _ {W X J A Y : Type 0} (formats : Formats) (futures : Futures) (bytes : BytesLibrary)
    (aead : Aead) (reader : StreamReader (Drive.Error X J A)) (body_reader : StreamReader Y)
    (remote : Remote W (IoError Y) X J A) (print : Operations.Error (Drive.Error X J A) → Text)
    (reply_of_text : Text → Reply (Drive.Error X J A)) where
  -- `get_root`; the reply to a text is that of warp.
  unfoldable pub get_root : Reply (Drive.Error X J A)
  get_root = reply_of_text (codes "castella file server")

  unfoldable pub handle : Conditions → Call Y → Store W → Reply (Drive.Error X J A) × Store W
  unfolding get_root
  handle c Routes.get_root s = (get_root, s)
  handle c (Routes.head_file key) s =
      let (result, s') = Handlers.head_file formats c.server key s in
      (handle_result print result, s')
  handle c (Routes.get_file key range) s =
      let (result, s') =
        Handlers.get_file formats futures bytes aead reader remote c.server key range s in
      (handle_result print result, s')
  handle c (Routes.upload_file size content_type content) s =
      let (result, s') =
        Handlers.upload_file futures aead body_reader remote c.random c.server c.adding_drive
          c.adding c.limiter (get_value size) content_type content s in
      (handle_result print result, s')
  handle c (Routes.delete_file key) s =
      let (result, s') = Handlers.delete_file remote c.server key s in
      (handle_result print result, s')
