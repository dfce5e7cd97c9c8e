-- ===== src/Main.antt =====
-- cmd/main.go: here the namespaces to watch; below, the client that logs, the program as a whole and
-- what it runs through.
pub mod Namespaces
pub mod DebugClient
pub mod Run
pub mod Unlogged
use kube_smart_scheduler.Prelude.{
  ℕ, Bool, Option, none, some, List, [], ◌∷◌, map, length, ltb, ◌==◌, if◌then◌else◌,
}
use kube_smart_scheduler.GoText.{Text, is_empty, split, trim_space}
use kube_smart_scheduler.GoMap.{Map, insert}

-- The flag --watch-namespaces.
unfoldable pub parse_watch_namespaces : Text → List Text
unfolding is_empty split trim_space
parse_watch_namespaces watch_namespaces =
    if is_empty watch_namespaces then [] else map trim_space (split b',' watch_namespaces)

-- A cache.Config is empty here.
unfoldable pub add_namespaces : List Text → Map (Unit {0}) → Map (Unit {0})
add_namespaces [] ns_map = ns_map
add_namespaces (ns ∷ namespaces) ns_map = add_namespaces namespaces (insert ns tt ns_map)

-- Cache.DefaultNamespaces: with no entry, all namespaces are watched.
unfoldable pub default_namespaces : List Text → Map (Unit {0})
unfolding add_namespaces
default_namespaces [] = []
default_namespaces (ns ∷ []) = (ns, tt) ∷ []
default_namespaces (ns ∷ other ∷ namespaces) = add_namespaces (ns ∷ other ∷ namespaces) []
