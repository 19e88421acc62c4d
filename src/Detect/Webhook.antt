-- ===== src/Detect/Webhook.antt =====
-- The webhook of internal/broker/detect.go, which gets each event `webhook` among the broker's effects.
-- What becomes of the request is dropped by the code.
use xdauth.Detect.{SecurityEvent, second}
use xdauth.Prelude.{◌*◌, Bool, Option, none, some, if◌then◌else◌}
use xdauth.Session.{Duration}
use xdauth.Text.{Text, bytes}

-- `abuseWebhook`, with the timeout of its client.
pub record AbuseWebhook : Type 0 where
  pub url : Text
  pub timeout : Duration

-- `newAbuseWebhook`, with the timeout of the given client, if there is one.
pub new_abuse_webhook : Text → Option Duration → AbuseWebhook
new_abuse_webhook url client = record {
  url = url;
  timeout = elim client [ none ↦ 5 * second | some t ↦ t ];
}

pub record Post : Type 0 where
  pub url : Text
  pub content_type : Text
  pub body : Text

-- `fire`: the request that it sends, if any; `encode` is `json.Marshal`, and `is_request_url` whether
-- `http.NewRequestWithContext` takes the URL.
pub fire :
    (encode : SecurityEvent → Option Text)
    → (is_request_url : Text → Bool) → AbuseWebhook
    → SecurityEvent
    → Option Post
fire encode is_request_url h evt = elim (encode evt) [
  | none ↦ none
  | some body ↦
      if is_request_url h.url
      then some (record { url = h.url; content_type = bytes "application/json"; body = body })
      else none
]
