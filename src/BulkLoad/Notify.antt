-- ===== src/BulkLoad/Notify.antt =====
-- airflow/scripts/run_history.py and airflow/scripts/notify.py.
use text.Mathlib.Text.{◌==◌}
use observability_lab.Prelude.{
  Bool, true, false, List, [], ◌∷◌, ◌++◌, String, Option, none, some, if◌then◌else◌,
}
use observability_lab.BulkLoad.Text.{Text, codes}

-- What becomes of `requests.post` with `raise_for_status`.
pub data Delivery : Type 0 where
  delivered : Delivery
  -- it raises, and the message is in the chat all the same
  reply_lost : Delivery
  -- it raises, and the message is not in the chat
  undelivered : Delivery

-- `f"{timestamp} | run={run_id} | status={status} | {detail}\n"`
unfoldable pub history_line : Text → Text → Text → Text → Text
history_line timestamp status run_id detail =
    timestamp
    ++ (codes " | run="
        ++ (run_id ++ (codes " | status=" ++ (status ++ (codes " | " ++ (detail ++ (10 ∷ [])))))))

-- An environment variable that is set, and not empty.
abbrev pub is_set : Option String → Bool
is_set none = false
is_set (some t) = if t == "" then false else true

abbrev pub posted : Delivery → Text → List Text → List Text
posted delivered text chat = text ∷ chat
posted reply_lost text chat = text ∷ chat
posted undelivered text chat = chat

-- The chat afterwards, the newest message first. The try statement catches what the request raises.
unfoldable pub send_telegram_message :
    Option String → Option String → Delivery → Text → List Text → List Text
send_telegram_message token chat_id d text chat =
    if is_set token then (if is_set chat_id then posted d text chat else chat) else chat
