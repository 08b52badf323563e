-- ===== src/Passkeys/Ceremony/OneTime.antt =====
-- A challenge serves one attempt to authenticate, whatever the service does afterwards.
use my_auth.Passkeys.Response.{Response}
use my_auth.Text.{Text}
use my_auth.Passkeys.Ceremony.Spent.{Spent}
