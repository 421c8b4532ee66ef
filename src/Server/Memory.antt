-- ===== src/Server/Memory.antt =====
-- A router that keeps its routes in a list: an instance of `Gin` for the tests.
use llmapi_gate_way.Server.{Gin, GinLaws}
use llmapi_gate_way.Common.{
  String, ◌≡◌, refl, sym, ◌&&◌, Option, none, some, List, [], ◌∷◌, ◌==◌, some_inj, if◌then◌else◌,
}

abbrev Table : Type 0
Table = List (String × String × String)

unfoldable pub table_find : Table → String → String → Option String
table_find [] method path = none
table_find ((m, p, h) ∷ rest) method path =
    let found = table_find rest method path in
    if (m == method) && (p == path) then some h else found

abbrev table_add : String → String → String → Table → Option String → Option Table
table_add method path h e none = some ((method, path, h) ∷ e)
table_add method path h e (some held) = none

abbrev pub memory_gin : Gin Table String
memory_gin = record {
  new = [];
  handle = λ method path h e. table_add method path h e (table_find e method path);
  find = table_find;
}

table_add-find :
    (method path h : String) (e e' : Table) (held : Option String)
    (other_method other_path : String)
    → table_add method path h e held ≡ some e'
    → table_find e' other_method other_path ≡ (
        if (method == other_method) && (path == other_path)
        then some h
        else table_find e other_method other_path)
unfolding table_find
table_add-find method path h e e' none other_method other_path made = rw (sym (some_inj made)) refl
table_add-find method path h e e' (some held) other_method other_path made = cc

pub memory_gin-laws : GinLaws memory_gin
unfolding table_find
memory_gin-laws = record {
  find-new = λ method path. refl;
  handle-fresh =
      λ method path h e static known plain fresh. (((method, path, h) ∷ e), rw fresh refl);
  find-handle = λ method path h e e' other_method other_path static known plain asked made.
      table_add-find method path h e e' (table_find e method path) other_method other_path made;
}
