-- ===== src/Plugins.antt =====
-- plugins/interfaces.py: the registry of the plugins that handle intents in the agent's process.
pub mod Order
pub mod Filing
pub mod Refine
mod Tests
use py_fdc3_desktop_agent.Base.{
  String, Bool, true, false, not, ◌&&◌, Option, none, some, List, [], ◌∷◌, ◌++◌, ◌==◌,
  if◌then◌else◌,
}
use py_fdc3_desktop_agent.Base.Int.{ℤ, ltb_ℤ}
use py_fdc3_desktop_agent.Base.Lists.{is_empty, filter, contains, erase}
use py_fdc3_desktop_agent.Base.Dict.{Dict, get, put, remove, has, keys}

-- A plugin is an object of the user, known by a name: `plugin in plugins` compares objects. What it
-- returns as its `handled_intents` and `priority` are the parameters below.
pub record PluginRegistry : Type 0 where
  pub plugins : List String
  pub intent_map : Dict (List String)

abbrev pub no_plugins : PluginRegistry
no_plugins = record { plugins = []; intent_map = [] }

abbrev pub list_or_empty : Option (List String) → List String
list_or_empty none = []
list_or_empty (some ps) = ps

-- `[p for p in … if p is not plugin]`
abbrev pub without : String → List String → List String
without plugin ps = filter (λ p. not (p == plugin)) ps

-- `if not self._intent_map[intent]: del self._intent_map[intent]`
abbrev pub keep_list : Dict (List String) → String → List String → Dict (List String)
keep_list d intent ps = if is_empty ps then remove d intent else put d intent ps

abbrev pub drop_from :
    Dict (List String) → String → String → Option (List String) → Dict (List String)
drop_from d intent plugin none = d
drop_from d intent plugin (some ps) = keep_list d intent (without plugin ps)

-- The second loop of `unregister`.
unfoldable pub unfile : Dict (List String) → String → List String → Dict (List String)
unfile d plugin [] = d
unfile d plugin (intent ∷ rest) = unfile (drop_from d intent plugin (get d intent)) plugin rest

unfoldable pub get_plugins_for_intent : PluginRegistry → String → List String
get_plugins_for_intent r intent = list_or_empty (get r.intent_map intent)

abbrev pub not_empty : Option (List String) → Bool
not_empty none = false
not_empty (some ps) = not (is_empty ps)

unfoldable pub has_handler_for_intent : PluginRegistry → String → Bool
has_handler_for_intent r intent = not_empty (get r.intent_map intent)

unfoldable pub list_plugins : PluginRegistry → List String
list_plugins r = r.plugins

unfoldable pub list_handled_intents : PluginRegistry → List String
list_handled_intents r = keys r.intent_map

module _ (handled_intents : String → List String) (priority : String → ℤ) where
  -- `sort(key=lambda p: p.priority, reverse=True)`: falling, and stable as Python's sort is.
  abbrev pub place : String → List String → List String
  place p [] = p ∷ []
  place p (q ∷ qs) = if ltb_ℤ (priority p) (priority q) then q ∷ place p qs else p ∷ q ∷ qs

  unfoldable pub sort : List String → List String
  sort [] = []
  sort (p ∷ ps) = place p (sort ps)

  -- The loop of `register`.
  unfoldable pub file_under : Dict (List String) → String → List String → Dict (List String)
  file_under d plugin [] = d
  file_under d plugin (intent ∷ rest) =
      file_under (put d intent (sort (list_or_empty (get d intent) ++ plugin ∷ []))) plugin rest

  unfoldable pub register : PluginRegistry → String → PluginRegistry
  register r plugin = if contains plugin r.plugins then r else record {
    plugins = r.plugins ++ plugin ∷ [];
    intent_map = file_under r.intent_map plugin (handled_intents plugin);
  }

  unfoldable pub unregister : PluginRegistry → String → PluginRegistry
  unregister r plugin = if not (contains plugin r.plugins) then r else record {
    plugins = erase plugin r.plugins;
    intent_map = unfile r.intent_map plugin (handled_intents plugin);
  }
