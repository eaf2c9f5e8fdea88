-- ===== src/Tools/Handles.antt =====
-- The handlelist sensor (sensors/sensor_handlelist/sensor_handlelist.py): one round over what
-- handle.exe prints.
pub mod Blocks
mod Tests
use virt_ue_sensing.Base.{
  ℕ, zero, suc, ◌≡◌, Bool, true, false, not, ◌&&◌, ◌||◌, Option, none, some, List, [], ◌∷◌, ◌++◌,
  ◌==◌, if◌then◌else◌, map, take, drop, keep_if, length,
}
use virt_ue_sensing.Base.Text.{Text, codes, text_eq, text_Eq}
use virt_ue_sensing.Base.Dict.{Dict, get, put}
use virt_ue_sensing.Base.Split.{split_on, is_space}
use virt_ue_sensing.Base.Exec.{
  Result, ok, err, or_raise, then_result, unicode_error, name_error, key_error, index_error,
}
use virt_ue_sensing.Base.Log.{LogMessage, log_message}
use virt_ue_sensing.Tools.Columns.{nth, last_of, Sent}

abbrev onto_first : ℕ → List Text → List Text
onto_first c [] = (c ∷ []) ∷ []
onto_first c (w ∷ ws) = (c ∷ w) ∷ ws

pieces : Text → List Text
pieces [] = [] ∷ []
pieces (c ∷ s) = let rest = pieces s in if is_space c then [] ∷ rest else onto_first c rest

-- `s.split()`
unfoldable pub words : Text → List Text
unfolding pieces text_eq
words s = keep_if (λ w. not (text_eq w [])) (pieces s)

abbrev is_break : ℕ → Bool
is_break c = (c == 10) || (c == 13)

lstrip_breaks : Text → Text
lstrip_breaks [] = []
lstrip_breaks (c ∷ s) = let rest = lstrip_breaks s in if is_break c then rest else c ∷ s

abbrev keep_before : ℕ → Text → Text
keep_before c [] = if is_break c then [] else c ∷ []
keep_before c (d ∷ s) = c ∷ d ∷ s

rstrip_breaks : Text → Text
rstrip_breaks [] = []
rstrip_breaks (c ∷ s) = keep_before c (rstrip_breaks s)

-- A handle, and a process with its handles.
pub record HandleEntry : Type 0 where
  pub handle : Text
  pub handle_type : Text
  pub object_access : Text
  pub object_path : Text

pub record Owner : Type 0 where
  pub pid : Text
  pub image_name : Text
  pub user : Text
  pub handles : Dict Text HandleEntry

abbrev spaced : List Text → Text
spaced [] = []
spaced (w ∷ ws) = w ++ (codes " " ++ spaced ws)

-- The line behind a rule.
unfoldable pub owner_of : Text → Result Owner
unfolding words
owner_of line = then_result (nth 0 (words line)) λ image_name.
    then_result (nth 2 (words line)) λ pid. ok (record {
      pid = pid;
      image_name = image_name;
      user = spaced (drop 3 (words line));
      handles = [];
    })

abbrev last_char : ℕ → Text → ℕ
last_char c [] = c
last_char c (d ∷ s) = last_char d s

abbrev in_brackets : Text → Bool
in_brackets [] = false
in_brackets (c ∷ s) = (c == b'(') && (last_char c s == b')')

-- The access and the path, of `obj[2:]`.
abbrev access_of : List Text → Result (Text × Text)
access_of [] = err index_error
access_of (a ∷ []) = ok (codes "(---)", a)
access_of (a ∷ p ∷ []) = ok (if in_brackets a then (a, p) else (codes "(---)", a))
access_of (a ∷ p ∷ q ∷ rest) = ok (codes "(---)", a)

-- Any other line.
unfoldable pub entry_of : Text → Result HandleEntry
unfolding words split_on
entry_of line = then_result (nth 0 (words line)) λ name.
    then_result (nth 0 (split_on b':' name)) λ handle.
      then_result (nth 1 (words line)) λ handle_type.
        then_result (access_of (drop 2 (words line))) λ p. ok (record {
          handle = handle;
          handle_type = handle_type;
          object_access = p.0;
          object_path = p.1;
        })

-- `line[0:4] == '----'`
unfoldable pub is_rule : Text → Bool
unfolding text_eq
is_rule line = text_eq (take 4 line) (codes "----")

-- The variables of the loop; `pid` is unbound at first, and keeps its value between rounds.
pub record Listing : Type 0 where
  pub proc_dict : Dict Text Owner
  pub parse_proc_info_next : Bool
  pub first_time_through : Bool
  pub pid : Option Text

abbrev pub add_handle : HandleEntry → Owner → Owner
add_handle e o = record o { handles = put e.handle e o.handles }

abbrev pub with_owner : Listing → Owner → Listing
with_owner s o = record {
  proc_dict = put o.pid o s.proc_dict;
  parse_proc_info_next = false;
  first_time_through = s.first_time_through;
  pid = some o.pid;
}

-- What a rule makes of the listing, and the report on what was listed before it.
abbrev pub at_rule : Listing → Option (Dict Text Owner) × Listing
at_rule s = (
  (if s.first_time_through then none else some s.proc_dict),
  record {
    proc_dict = if s.first_time_through then s.proc_dict else [];
    parse_proc_info_next = true;
    first_time_through = false;
    pid = s.pid;
  },
)

unfoldable pub at_entry : Listing → HandleEntry → Result (Option (Dict Text Owner) × Listing)
at_entry s e = then_result (or_raise name_error s.pid) λ pid.
    then_result (or_raise key_error (get pid s.proc_dict))
      λ o. ok (none, record s { proc_dict = put pid (add_handle e o) s.proc_dict })

unfoldable pub list_line : Listing → Text → Result (Option (Dict Text Owner) × Listing)
list_line s line =
    if s.parse_proc_info_next
    then then_result (owner_of line) (λ o. ok (none, with_owner s o))
    else if is_rule line
    then ok (at_rule s)
    else then_result (entry_of line) (at_entry s)

-- The report, and what the loop goes on with.
abbrev pub after_line :
    Result (Option (Dict Text Owner) × Listing)
    → (Listing → Sent (Dict Text Owner))
    → Sent (Dict Text Owner)
after_line (err x) f = record { messages = []; raised = some x }
after_line (ok (none, t)) f = f t
after_line (ok (some m, t)) f = record { messages = m ∷ (f t).messages; raised = (f t).raised }

-- `decode` is `bytes.decode('utf-8')`; `none` is a `UnicodeDecodeError`.
module _ (decode : Text → Option Text) where
  unfoldable pub line_of : Text → Result Text
  unfolding lstrip_breaks rstrip_breaks
  line_of raw =
      then_result (or_raise unicode_error (decode raw))
        λ line. ok (rstrip_breaks (lstrip_breaks line))

  -- The lines up to an empty one; what is raised ends the sensor.
  unfoldable pub list_lines : Listing → List Text → Sent (Dict Text Owner)
  list_lines s [] = record { messages = []; raised = none }
  list_lines s ([] ∷ raws) = record { messages = []; raised = none }
  list_lines s ((c ∷ raw) ∷ raws) =
      after_line (then_result (line_of (c ∷ raw)) (list_line s)) (λ t. list_lines t raws)

  abbrev pub begin_listing : Option Text → Listing
  begin_listing pid = record {
    proc_dict = [];
    parse_proc_info_next = false;
    first_time_through = true;
    pid = pid;
  }

  -- One round of `handlelist`, from the `pid` of the round before. Time stands still.
  unfoldable pub handlelist :
      Option Text
      → Text
      → LogMessage (Dict Text Owner)
      → List Text
      → Sent (LogMessage (Dict Text Owner))
  handlelist pid now message_stub raws =
      let sent = list_lines (begin_listing pid) raws in
      record {
        messages = map (λ m. log_message now (codes "info") m message_stub) sent.messages;
        raised = sent.raised;
      }
