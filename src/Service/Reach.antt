-- ===== src/Service/Reach.antt =====
-- The states that the server reaches: requests come one after another, each at a time of its own.
use c_framework_to_server.Base.{ℕ, some, List, ◌≡◌, length}
use c_framework_to_server.Cache.{create_cache}
use c_framework_to_server.Cache.Laws.{LawfulDict}
use c_framework_to_server.Service.{Platform, World}
use c_framework_to_server.Service.Ensures.{Ensures-some}
use c_framework_to_server.Service.Routes.{
  get_function_route, service_routes, regist_service, Handler,
}
use c_framework_to_server.Service.CacheInvariant.{create_cache-CachesValid, IsValid}
use c_framework_to_server.Service.Handlers.{
  found_route, service_routes-keep, load_cache_necessary-Keeps,
}

-- The same program at another time.
abbrev pub at : ℕ → Platform → Platform
at t p = record p { now = t }

module _ (p : Platform) where
  -- One request: a route's name and a JSON text.
  pub data Step : World p → World p → Type 0 where
    request :
        (t : ℕ) (name text : List ℕ) (handler : Handler p) (s s' : World p)
        → get_function_route name (service_routes (at t p)) ≡ some handler
        → handler (record s { buffer = text; buffer_used = length text }) ≡ some s'
        → Step s s'

  pub data Reach : World p → Type 0 where
    started : (s : World p) {s' : World p} → regist_service p s ≡ some s' → Reach s'
    served : {s s' : World p} → Reach s → Step s s' → Reach s'

module _ (p : Platform) (lawful : LawfulDict p.dict) where
  Step-IsValid : {s s' : World p} → Step p s s' → IsValid p s → IsValid p s'
  Step-IsValid (request now name text handler s s' route run) h =
      Ensures-some (IsValid p) (handler (record s { buffer = text; buffer_used = length text })) s'
        (found_route (at now p) lawful name (service_routes (at now p)) handler
          (service_routes-keep (at now p) lawful) route
          (record s { buffer = text; buffer_used = length text }) h)
        run

  -- What stands in the caches of every state that the server reaches from its start: in the token
  -- cache users alone, each under its own token; in the common cache message codes alone, under keys
  -- of eleven characters, and possibly an app version under "appVersion". The hash table is one that
  -- follows the laws of dict.c.
  pub Reach-IsValid : (s : World p) → Reach p s → IsValid p s
  Reach-IsValid t (started s e) =
      Ensures-some (IsValid p) (regist_service p s) t
        (load_cache_necessary-Keeps p lawful (record s { caches = create_cache p.dict })
          (create_cache-CachesValid p.dict lawful))
        e
  Reach-IsValid t (served r step) = Step-IsValid step (Reach-IsValid _ r)
