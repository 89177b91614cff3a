-- ===== src/Http/ServerLaws.antt =====
-- The order of what HttpServer::handleClient of src/http/HttpServer.cc sends.
use phase.Base.{◌≡◌, false, not, ◌||◌, List, All}
use phase.Http.Message.{HttpRequest}
use phase.Http.Session.{HttpServer, closed_after}

-- The requests after which handleClient goes on.
abbrev pub KeptAlive : HttpServer → List HttpRequest → Type 0
KeptAlive h requests = All (λ r. (not h.is_keepalive || closed_after h r) ≡ false) requests
