-- ===== src/Outbox/Keeps.antt =====
-- A message that is handed over, or refused, leaves the database and the cache alone.
use idp_be.Prelude.{ℕ, String, List}
use idp_be.Exec.{Result, ok, err, Exception, library}
use idp_be.Exec.Keeps.{Keeps}
use idp_be.Platform.{Platform, World, Message}
use idp_be.Database.Keeps.{CacheOnly, Keeps-answer}
use idp_be.Outbox.{
  handed_over, send_email, send_message, post_to_slack, delete_object, create_presigned_url,
}

module _ {Db Cache Response : Type 0} (P : Platform Db Cache Response)
    {Q : World Db Cache → Type 0} where
  keeps_handed_over :
      (handler : String → Exception) (m : Message) (r : Result String (Unit {0}))
      (w : World Db Cache)
      → CacheOnly Q
      → Q w
      → Q (handed_over P handler m r w).1
  keeps_handed_over handler m (ok _) w c h = c.on_send w _ h
  keeps_handed_over handler m (err e) w c h = h

  pub Keeps-send_email :
      (to subject content : String) → CacheOnly Q → Keeps Q (send_email P to subject content)
  unfolding send_email
  Keeps-send_email to subject content c = record { after = λ w h. keeps_handed_over _ _ _ w c h }

  pub Keeps-send_message :
      (phone_number msg : String) → CacheOnly Q → Keeps Q (send_message P phone_number msg)
  unfolding send_message
  Keeps-send_message phone_number msg c = record { after = λ w h. keeps_handed_over _ _ _ w c h }

  pub Keeps-post_to_slack : (fields : List String) → CacheOnly Q → Keeps Q (post_to_slack P fields)
  unfolding post_to_slack
  Keeps-post_to_slack fields c = record { after = λ w h. keeps_handed_over _ _ _ w c h }

  pub Keeps-delete_object : (key : String) → CacheOnly Q → Keeps Q (delete_object P key)
  unfolding delete_object
  Keeps-delete_object key c = record { after = λ w h. keeps_handed_over _ _ _ w c h }

  pub Keeps-create_presigned_url :
      (key : String) (length : ℕ) → Keeps Q (create_presigned_url P key length)
  unfolding create_presigned_url
  Keeps-create_presigned_url key length = record {
    after = λ w h. (Keeps-answer {Q = Q} library (P.presigned_url key length w.now)).after w h;
  }

pub ruleset outbox_rules = (
  Keeps-send_email, Keeps-send_message, Keeps-post_to_slack, Keeps-delete_object,
  Keeps-create_presigned_url,
)
