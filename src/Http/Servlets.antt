-- ===== src/Http/Servlets.antt =====
-- ServletDispatch, NotFoundServlet and FunctionServlet of src/http/servlet.cc and
-- src/http/include/servlet.h. A callback and a class of servlets are numbers. `m_datas` is a list of
-- entries, whose order says nothing; `fnmatch` and what callbacks do are arguments.
use phase.Base.{ℕ, Bool, Option, none, some, List, [], ◌∷◌, ◌++◌, if◌then◌else◌}
use phase.Http.Codes.{same_bytes}
use phase.Http.Message.{HttpRequest, HttpResponse}
use phase.Http.Requests.{response_set_header}

-- A servlet that a ServletCreator makes is known by its class.
pub data Servlet : Type 0 where
  function_servlet : ℕ → Servlet
  not_found_servlet : List ℕ → Servlet
  made_servlet : ℕ → Servlet

-- HoldServletCreator and ServletCreator.
pub data ServletCreator : Type 0 where
  hold_servlet : Servlet → ServletCreator
  make_servlet : ℕ → ServletCreator

unfoldable pub creator_get : ServletCreator → Servlet
creator_get (hold_servlet slt) = slt
creator_get (make_servlet c) = made_servlet c

abbrev pub Creators : Type 0
Creators = List (List ℕ × ServletCreator)

pub record ServletDispatch : Type 0 where
  pub datas : Creators
  pub globs : Creators
  pub fallback : Option Servlet

-- "phase0/1.0".
abbrev pub phase0_name : List ℕ
phase0_name = 112 ∷ 104 ∷ 97 ∷ 115 ∷ 101 ∷ 48 ∷ 47 ∷ 49 ∷ 46 ∷ 48 ∷ []

unfoldable pub new_dispatch : ServletDispatch
new_dispatch = record { datas = []; globs = []; fallback = some (not_found_servlet phase0_name) }

-- The entry with the key, and the list without the first such entry.
unfoldable pub entry : List ℕ → Creators → Option ServletCreator
entry uri [] = none
entry uri ((k, c) ∷ m) = let rest = entry uri m in if same_bytes k uri then some c else rest

unfoldable pub without : List ℕ → Creators → Creators
without uri [] = []
without uri ((k, c) ∷ m) = let rest = without uri m in if same_bytes k uri then m else (k, c) ∷ rest

-- `m_datas[uri] = creator`.
unfoldable pub with_entry : List ℕ → ServletCreator → Creators → Creators
with_entry uri creator [] = (uri, creator) ∷ []
with_entry uri creator ((k, c) ∷ m) =
    let rest = with_entry uri creator m in
    if same_bytes k uri then (k, creator) ∷ m else (k, c) ∷ rest

unfoldable pub add_servlet_creator : ServletDispatch → List ℕ → ServletCreator → ServletDispatch
unfolding with_entry
add_servlet_creator d uri creator = record d { datas = with_entry uri creator d.datas }

unfoldable pub add_servlet : ServletDispatch → List ℕ → Servlet → ServletDispatch
unfolding add_servlet_creator
add_servlet d uri slt = add_servlet_creator d uri (hold_servlet slt)

unfoldable pub add_function : ServletDispatch → List ℕ → ℕ → ServletDispatch
unfolding add_servlet
add_function d uri cb = add_servlet d uri (function_servlet cb)

unfoldable pub add_glob_servlet_creator :
    ServletDispatch → List ℕ → ServletCreator → ServletDispatch
unfolding without
add_glob_servlet_creator d uri creator = record d {
  globs = without uri d.globs ++ (uri, creator) ∷ [];
}

unfoldable pub add_glob_servlet : ServletDispatch → List ℕ → Servlet → ServletDispatch
unfolding add_glob_servlet_creator
add_glob_servlet d uri slt = add_glob_servlet_creator d uri (hold_servlet slt)

unfoldable pub add_glob_function : ServletDispatch → List ℕ → ℕ → ServletDispatch
unfolding add_glob_servlet
add_glob_function d uri cb = add_glob_servlet d uri (function_servlet cb)

unfoldable pub del_servlet : ServletDispatch → List ℕ → ServletDispatch
unfolding without
del_servlet d uri = record d { datas = without uri d.datas }

unfoldable pub del_glob_servlet : ServletDispatch → List ℕ → ServletDispatch
unfolding without
del_glob_servlet d uri = record d { globs = without uri d.globs }

unfoldable pub set_default : ServletDispatch → Option Servlet → ServletDispatch
set_default d slt = record d { fallback = slt }

-- `it->second->get()`, or null.
abbrev pub got : Option ServletCreator → Option Servlet
got none = none
got (some c) = some (creator_get c)

unfoldable pub get_servlet : ServletDispatch → List ℕ → Option Servlet
unfolding entry creator_get
get_servlet d uri = got (entry uri d.datas)

unfoldable pub get_glob_servlet : ServletDispatch → List ℕ → Option Servlet
unfolding entry creator_get
get_glob_servlet d uri = got (entry uri d.globs)

-- The first pattern that matches; `fnmatch` says so.
unfoldable pub first_glob : (List ℕ → List ℕ → Bool) → List ℕ → Creators → Option ServletCreator
first_glob fnmatch uri [] = none
first_glob fnmatch uri ((k, c) ∷ m) =
    let rest = first_glob fnmatch uri m in if fnmatch k uri then some c else rest

unfoldable pub get_matched_servlet :
    (List ℕ → List ℕ → Bool) → ServletDispatch → List ℕ → Option Servlet
unfolding entry first_glob creator_get
get_matched_servlet fnmatch d uri = elim (entry uri d.datas) [
  | some c ↦ some (creator_get c)
  | none ↦ elim (first_glob fnmatch uri d.globs) [
    | some c ↦ some (creator_get c)
    | none ↦ d.fallback
  ]
]

-- listAllServletCreator and listAllGlobServletCreator, into a map with entries already.
unfoldable pub list_all : Creators → Creators → Creators
unfolding with_entry
list_all [] infos = infos
list_all ((k, c) ∷ m) infos = list_all m (with_entry k c infos)

-- HttpStatus::NOT_FOUND.
abbrev pub status_not_found : ℕ
status_not_found = 404

-- "Server", "phase0/1.0.0", "Content-Type" and "text/html".
abbrev pub server_name : List ℕ
server_name = 83 ∷ 101 ∷ 114 ∷ 118 ∷ 101 ∷ 114 ∷ []

abbrev pub server_version : List ℕ
server_version = phase0_name ++ 46 ∷ 48 ∷ []

abbrev pub content_type_text : List ℕ
content_type_text = 67 ∷ 111 ∷ 110 ∷ 116 ∷ 101 ∷ 110 ∷ 116 ∷ 45 ∷ 84 ∷ 121 ∷ 112 ∷ 101 ∷ []

abbrev pub text_html : List ℕ
text_html = 116 ∷ 101 ∷ 120 ∷ 116 ∷ 47 ∷ 104 ∷ 116 ∷ 109 ∷ 108 ∷ []

-- NotFoundServlet::handle; `content` is the page for the servlet's name.
unfoldable pub not_found_handle : (List ℕ → List ℕ) → List ℕ → HttpResponse → HttpResponse
unfolding response_set_header
not_found_handle content name r =
    let typed : HttpResponse =
      response_set_header
        (response_set_header (record r { status = status_not_found }) server_name server_version)
        content_type_text text_html in
    record typed { body = content name }

-- A servlet's `handle`: `callback` is what the callbacks do, `made` the servlets of other classes.
unfoldable pub servlet_handle :
    (List ℕ → List ℕ)
    → (ℕ → HttpRequest → HttpResponse → HttpResponse)
    → (ℕ → HttpRequest → HttpResponse → HttpResponse)
    → Servlet
    → HttpRequest
    → HttpResponse
    → HttpResponse
unfolding not_found_handle
servlet_handle content callback made (function_servlet cb) request r = callback cb request r
servlet_handle content callback made (not_found_servlet name) request r =
    not_found_handle content name r
servlet_handle content callback made (made_servlet c) request r = made c request r

-- ServletDispatch::handle, which always returns 0.
unfoldable pub dispatch_handle :
    (List ℕ → List ℕ → Bool)
    → (Servlet → HttpRequest → HttpResponse → HttpResponse)
    → ServletDispatch
    → HttpRequest
    → HttpResponse
    → HttpResponse
unfolding get_matched_servlet
dispatch_handle fnmatch handle d request r = elim (get_matched_servlet fnmatch d request.path) [
  | none ↦ r
  | some slt ↦ handle slt request r
]
