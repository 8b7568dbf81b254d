-- ===== src/Outbox.antt =====
-- libs/object, libs/mail and libs/aligo: what leaves the service, and the URLs of stored objects.
pub mod Keeps
use idp_be.Prelude.{◌≡◌, ℕ, String, ◌⋆◌, Option, none, some, List, ◌∷◌}
use idp_be.Exec.{Exec, Result, ok, err, Exception, library, internal, answer}
use idp_be.Platform.{Platform, World, Message}

module _ {Db Cache Response : Type 0} (P : Platform Db Cache Response) where
  -- the state after a message was handed over, or was refused
  abbrev pub handed_over :
      (String → Exception)
      → Message
      → Result String (Unit {0})
      → World Db Cache
      → Result Exception (Unit {0}) × World Db Cache
  handed_over handler m (ok _) w = (ok tt, record w { sent = m ∷ w.sent })
  handed_over handler m (err e) w = (err (handler e), w)

  -- What was handed over is the last of what was sent.
  pub handed_over-eq-ok :
      (handler : String → Exception) (m : Message) (r : Result String (Unit {0}))
      (w : World Db Cache) {u : Unit {0}} {w' : World Db Cache}
      → handed_over handler m r w ≡ (ok u, w')
      → w' ≡ record w { sent = m ∷ w.sent }
  handed_over-eq-ok handler m (ok _) w h = cc
  handed_over-eq-ok handler m (err e) w h = cc

  -- `ObjectService.getUrl`
  unfoldable pub get_url : String → String
  get_url key =
      "https://"
      ⋆ (P.config.aws_s3_bucket ⋆ (".s3." ⋆ (P.config.aws_s3_region ⋆ (".amazonaws.com/" ⋆ key))))

  -- `picture === null ? null : this.objectService.getUrl(picture)`
  unfoldable pub picture_url : Option String → Option String
  unfolding get_url
  picture_url none = none
  picture_url (some key) = some (get_url key)

  unfoldable pub create_presigned_url : (key : String) → ℕ → Exec (World Db Cache) String
  create_presigned_url key length w = answer library (P.presigned_url key length w.now) w

  unfoldable pub delete_object : String → Exec (World Db Cache) (Unit {0})
  delete_object key w =
      handed_over library (Message.delete_object key) (P.deliver (Message.delete_object key) w.sent)
        w

  -- `MailService.sendEmail` logs an error and throws it again.
  unfoldable pub send_email : (to subject content : String) → Exec (World Db Cache) (Unit {0})
  send_email to subject content w =
      handed_over library (Message.mail to subject content)
        (P.deliver (Message.mail to subject content) w.sent) w

  -- `AligoService.sendMessage`: no answer and a result code other than '1' both fail.
  unfoldable pub send_message : (phone_number msg : String) → Exec (World Db Cache) (Unit {0})
  send_message phone_number msg w =
      handed_over (λ _. internal "failed to send SMS") (Message.sms phone_number msg)
        (P.deliver (Message.sms phone_number msg) w.sent) w

  unfoldable pub post_to_slack : List String → Exec (World Db Cache) (Unit {0})
  post_to_slack fields w =
      handed_over library (Message.slack fields) (P.deliver (Message.slack fields) w.sent) w
