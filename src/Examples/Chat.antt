-- ===== src/Examples/Chat.antt =====
-- Truncating a conversation.
use urara_vision.Base.{List, [], ◌∷◌}
use urara_vision.Base.Text.{Text, codes}
use urara_vision.Chat.History.{Message, role_user, role_assistant}

abbrev said : Text → Text → Message
said role content = record {
  ordinal = 0;
  role = role;
  content = content;
  citations = [];
  meta = [];
  created_at = 0;
}

abbrev talk : List Message
talk =
    said role_user (codes "Which tables join orders?")
    ∷ said role_assistant (codes "Customers.")
    ∷ said role_user (codes "And ledger?")
    ∷ said role_assistant (codes "Yes.")
    ∷ []
