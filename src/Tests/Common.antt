-- ===== src/Tests/Common.antt =====
-- packages/common: the theorem on a sanitized text.
use protege_mais.Base.{◌≤◌, ◌<◌, ◌≡◌, refl, some, arith, length}
use protege_mais.Text.{codes, trim, collapse_spaces, StartsSolid, EndsSolid}
use protege_mais.Common.AuthSessions.{blank_controls, sanitize_auth_session_text}
use protege_mais.Common.AuthSessions.Sanitized.{sanitize_auth_session_text_lem}

cut : sanitize_auth_session_text (some (codes "  My phone")) 5 ≡ some (codes "My ph")
unfolding sanitize_auth_session_text blank_controls collapse_spaces trim
cut = refl

sanitize_auth_session_text_lem_example :
    (1 ≤ length (codes "My ph"))
    × (length (codes "My ph") ≤ 5)
    × StartsSolid (codes "My ph")
    × (length (codes "My ph") < 5 → EndsSolid (codes "My ph"))
sanitize_auth_session_text_lem_example =
    sanitize_auth_session_text_lem (codes "  My phone") 5 (codes "My ph") (ground arith) cut
