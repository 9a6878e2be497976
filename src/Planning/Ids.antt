-- ===== src/Planning/Ids.antt =====
-- The ids of task graphs and of their nodes, src/core/planning/taskGraphBuilder.ts.
use Prim.Native.Char.{code}
use tomorrowedge.Prelude.{
  ℕ, zero, suc, String, Bool, false, not, ◌&&◌, ◌||◌, ◌==◌, append, leb, eqb, if◌then◌else◌,
}
use tomorrowedge.Safety.Letters.{to_lower}

-- `[a-z0-9_]`
abbrev is_id_character : ℕ → Bool
is_id_character c = leb b'a' c && leb c b'z' || leb b'0' c && leb c b'9' || eqb c b'_'

-- `replace(/[^a-z0-9_]+/g, "-")`; the flag tells that a dash stands for what was before.
dashed : Bool → String → String
dashed after String.[] = ""
dashed after (String.◌∷◌ c s) =
    let rest = dashed (not (is_id_character (code c))) s in
    if is_id_character (code c) then String.◌∷◌ c rest else if after then rest else append "-" rest

drop_first_dash : String → String
drop_first_dash String.[] = ""
drop_first_dash (String.◌∷◌ c s) = if eqb (code c) b'-' then s else String.◌∷◌ c s

drop_last_dash : String → String
drop_last_dash String.[] = ""
drop_last_dash (String.◌∷◌ c s) =
    if eqb (code c) b'-' && s == "" then "" else String.◌∷◌ c (drop_last_dash s)

-- `slice(0, n)`
abbrev slice_text : ℕ → String → String
slice_text zero s = ""
slice_text (suc n) String.[] = ""
slice_text (suc n) (String.◌∷◌ c s) = String.◌∷◌ c (slice_text n s)

abbrev text_or : String → String → String
text_or value other = if value == "" then other else value

unfoldable pub stable_id : String → String
unfolding to_lower dashed drop_first_dash drop_last_dash
stable_id value =
    text_or (slice_text 48 (drop_last_dash (drop_first_dash (dashed false (to_lower value)))))
      "default"

unfoldable pub sanitize_node_id : String → String
unfolding stable_id
sanitize_node_id value = text_or (stable_id value) "node"
