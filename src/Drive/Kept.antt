-- ===== src/Drive/Kept.antt =====
-- The client's methods leave every other file of the service as it is.
use castella.Prelude.{ℕ, ◌≡◌, refl, ap, ◌∙◌, some, Bytes, false, inl, inr}
use castella.Prelude.Ranges.{Range}
use castella.Text.{Text}
use castella.Stream.Flow.{Stream}
use castella.Stream.Library.{Futures}
use castella.Stream.Bandwidth.{BandwidthLimiter}
use castella.Db.Rows.{text_eq}
use castella.Drive.{
  Error, Request, Remote, FileHandle, FolderHandle, authorized_send, get_file, delete_file,
  create_drive, create_file,
}
use castella.Drive.Sending.{authorized, sent_world}
use castella.Drive.Creation.{created_world}
use castella.Drive.Service.{Service, deletes}

module _ {W B X J A : Type 0} {remote : Remote W B X J A} (service : Service remote) where
  file-authorized_send :
      (wrap : X → Error X J A) (request : Text → Request B) (w : W) (id : Text) {content : Bytes}
      → ((h : Text) → deletes (request h) id ≡ false)
      → service.file w id ≡ some content
      → service.file (authorized_send remote wrap request w).1 id ≡ some content
  file-authorized_send wrap request w id spared kept =
      let before =
        service.file-header (remote.until_ready w) id ∙ service.file-until_ready w id ∙ kept in
      elim (sent_world remote wrap request w) [
        | inl same ↦ ap (λ v. service.file v id) same ∙ before
        | inr (h, same) ↦
            ap (λ v. service.file v id) same
            ∙ service.file-send (request h) (authorized remote w) id (spared h) before
      ]

  pub file-get_file :
      (handle : FileHandle) (range : Range) (w : W) (id : Text) {content : Bytes}
      → service.file w id ≡ some content
      → service.file (get_file remote handle range w).1 id ≡ some content
  unfolding get_file
  file-get_file handle range w id kept = file-authorized_send _ _ w id (λ h. refl) kept

  pub file-create_drive :
      (request_id name : Text) (w : W) (id : Text) {content : Bytes}
      → service.file w id ≡ some content
      → service.file (create_drive remote request_id name w).1 id ≡ some content
  unfolding create_drive
  file-create_drive request_id name w id kept = file-authorized_send _ _ w id (λ h. refl) kept

  pub file-delete_file :
      (handle : FileHandle) (w : W) (id : Text) {content : Bytes}
      → text_eq handle.id id ≡ false
      → service.file w id ≡ some content
      → service.file (delete_file remote handle w).1 id ≡ some content
  unfolding delete_file
  file-delete_file handle w id other kept = file-authorized_send _ _ w id (λ h. other) kept

  pub file-create_file :
      (futures : Futures) (limiter : BandwidthLimiter) (boundary name : Text)
      (parent : FolderHandle) (size : ℕ) (content_type : Text) (body : Stream B Bytes) (w : W)
      (id : Text) {content : Bytes}
      → service.file w id ≡ some content
      → service.file
          (create_file futures remote limiter boundary name parent size content_type body w).1
          id
        ≡ some content
  file-create_file futures limiter boundary name parent size content_type body w id kept =
      elim (created_world futures remote limiter boundary name parent size content_type body w) [
        | inl same ↦ ap (λ v. service.file v id) same ∙ kept
        | inr (meta, serialized, same) ↦
            ap (λ v. service.file v id) same ∙ file-authorized_send _ _ w id (λ h. refl) kept
      ]
