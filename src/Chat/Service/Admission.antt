-- ===== src/Chat/Service/Admission.antt =====
-- app/services/chat_service.py: what a completion has passed when it calls a provider.
use atlas_gateway.Common.{◌≡◌, ◌⊎◌, List, [], ◌∷◌}
use atlas_gateway.Chat.Run.{Call, Run}
use atlas_gateway.Chat.Service as Service

-- The call is in the list.
abbrev pub IsMade : Call → List Call → Type 0
IsMade c [] = ⊥
IsMade c (d ∷ ds) = (c ≡ d) ⊎ IsMade c ds
