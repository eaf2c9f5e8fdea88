-- ===== src/Tools/Handles/Blocks.antt =====
-- What is reported of a listing of processes with their handles.
use virt_ue_sensing.Base.{
  ◌≡◌, refl, ap, ◌∙◌, Bool, true, false, Option, none, some, List, [], ◌∷◌, ◌++◌, map,
}
use virt_ue_sensing.Base.Text.{Text, codes, text_eq_refl, text_Eq}
use virt_ue_sensing.Base.Dict.{Dict, get, put}
use virt_ue_sensing.Base.Exec.{ok, then_result}
use virt_ue_sensing.Base.Log.{LogMessage, log_message}
use virt_ue_sensing.Tools.Handles.{
  HandleEntry, Owner, Listing, owner_of, entry_of, is_rule, add_handle, at_entry, list_line,
  line_of, list_lines, after_line, begin_listing, handlelist,
}

abbrev pub add_all : List HandleEntry → Owner → Owner
add_all [] o = o
add_all (e ∷ es) o = add_all es (add_handle e o)

-- All but the last.
abbrev pub but_last {ℓ} : {A : Type ℓ} → A → List A → List A
but_last x [] = []
but_last x (y ∷ ys) = x ∷ but_last y ys

-- The report on one process.
abbrev pub single : Owner → Dict Text Owner
single o = (o.pid, o) ∷ []

map-map {ℓ κ η} :
    {A : Type ℓ} {B : Type κ} {C : Type η} (f : A → B) (g : B → C) (xs : List A)
    → map g (map f xs) ≡ map (λ x. g (f x)) xs
map-map f g [] = refl
map-map f g (x ∷ xs) = ap (λ l. g (f x) ∷ l) (map-map f g xs)

module _ (decode : Text → Option Text) where
  -- The lines of the handles of a process.
  pub data Entries : List Text → List HandleEntry → Type 0 where
    last : Entries [] []
    entry :
        {raw line : Text} {e : HandleEntry} {raws : List Text} {es : List HandleEntry} {c : _}
        → line_of decode (c ∷ raw) ≡ ok line
        → is_rule line ≡ false
        → entry_of line ≡ ok e
        → Entries raws es
        → Entries ((c ∷ raw) ∷ raws) (e ∷ es)

  -- The lines of the processes: of each a rule, the process, and its handles.
  pub data Blocks : List Text → List Owner → Type 0 where
    end : Blocks [] []
    block :
        {raw_rule rule raw_owner line : Text} {o : Owner} {raws rest : List Text}
        {es : List HandleEntry} {os : List Owner} {c d : _}
        → line_of decode (c ∷ raw_rule) ≡ ok rule
        → is_rule rule ≡ true
        → line_of decode (d ∷ raw_owner) ≡ ok line
        → owner_of line ≡ ok o
        → Entries raws es
        → Blocks rest os
        → Blocks ((c ∷ raw_rule) ∷ (d ∷ raw_owner) ∷ (raws ++ rest)) (add_all es o ∷ os)

  -- The listing behind the lines of a process.
  listed : Bool → Owner → Listing
  listed first o = record {
    proc_dict = single o;
    parse_proc_info_next = false;
    first_time_through = first;
    pid = some o.pid;
  }

  goes_on :
      (c : _) (raw line : Text) (raws : List Text) (s t : Listing)
      → line_of decode (c ∷ raw) ≡ ok line
      → list_line s line ≡ ok (none, t)
      → list_lines decode s ((c ∷ raw) ∷ raws) ≡ list_lines decode t raws
  unfolding list_lines
  goes_on c raw line raws s t l e =
      ap (λ r. after_line r (λ u. list_lines decode u raws))
        (ap (λ r. then_result r (list_line s)) l ∙ e)

  reports :
      (c : _) (raw line : Text) (raws : List Text) (s t : Listing) (m : Dict Text Owner)
      → line_of decode (c ∷ raw) ≡ ok line
      → list_line s line ≡ ok (some m, t)
      → list_lines decode s ((c ∷ raw) ∷ raws) ≡ record {
        messages = m ∷ (list_lines decode t raws).messages;
        raised = (list_lines decode t raws).raised;
      }
  unfolding list_lines
  reports c raw line raws s t m l e =
      ap (λ r. after_line r (λ u. list_lines decode u raws))
        (ap (λ r. then_result r (list_line s)) l ∙ e)

  list_line-entry :
      (line : Text) (e : HandleEntry) (first : Bool) (o : Owner)
      → is_rule line ≡ false
      → entry_of line ≡ ok e
      → list_line (listed first o) line ≡ ok (none, listed first (add_handle e o))
  unfolding list_line at_entry listed get put
  list_line-entry line e first o r t = rw (r, t, text_eq_refl o.pid) refl

  list_lines-Entries :
      (raws rest : List Text) (es : List HandleEntry) (first : Bool) (o : Owner)
      → Entries raws es
      → list_lines decode (listed first o) (raws ++ rest)
        ≡ list_lines decode (listed first (add_all es o)) rest
  list_lines-Entries raws rest es first o last = refl
  list_lines-Entries ((c ∷ raw) ∷ raws) rest (e ∷ es) first o (entry {line = line} l r t h) =
      goes_on c raw line (raws ++ rest) (listed first o) (listed first (add_handle e o)) l
        (list_line-entry line e first o r t)
      ∙ list_lines-Entries raws rest es first (add_handle e o) h

  -- The listing behind a rule.
  ruled : Option Text → Listing
  ruled pid = record {
    proc_dict = [];
    parse_proc_info_next = true;
    first_time_through = false;
    pid = pid;
  }

  list_line-owner :
      (line : Text) (o : Owner) (pid : Option Text)
      → owner_of line ≡ ok o
      → list_line (ruled pid) line ≡ ok (none, listed false o)
  unfolding list_line ruled listed put
  list_line-owner line o pid e = rw e refl

  list_line-rule :
      (rule : Text) (o : Owner)
      → is_rule rule ≡ true
      → list_line (listed false o) rule ≡ ok (some (single o), ruled (some o.pid))
  unfolding list_line ruled listed
  list_line-rule rule o r = rw r refl

  list_line-first :
      (rule : Text) (pid : Option Text)
      → is_rule rule ≡ true
      → list_line (begin_listing decode pid) rule ≡ ok (none, ruled pid)
  unfolding list_line ruled
  list_line-first rule pid r = rw r refl

  -- The lines of one process, from its second on.
  list_lines-owner :
      (raw_owner line : Text) (p : Owner) (raws : List Text) (es : List HandleEntry)
      (rest : List Text) (pid : Option Text) (d : _)
      → line_of decode (d ∷ raw_owner) ≡ ok line
      → owner_of line ≡ ok p
      → Entries raws es
      → list_lines decode (ruled pid) ((d ∷ raw_owner) ∷ (raws ++ rest))
        ≡ list_lines decode (listed false (add_all es p)) rest
  list_lines-owner raw_owner line p raws es rest pid d l w h =
      goes_on d raw_owner line (raws ++ rest) (ruled pid) (listed false p) l
        (list_line-owner line p pid w)
      ∙ list_lines-Entries raws rest es false p h

  -- Behind a process all that are before the last are reported.
  list_lines-Blocks :
      (o : Owner) (raws : List Text) (os : List Owner)
      → Blocks raws os
      → list_lines decode (listed false o) raws
        ≡ record { messages = map single (but_last o os); raised = none }
  unfolding list_lines
  list_lines-Blocks o [] [] end = refl
  list_lines-Blocks o _ _
        (block {raw_rule = raw_rule} {rule = rule} {raw_owner = raw_owner} {line = line} {o = p}
          {raws = raws} {rest = rest} {es = es} {os = os} {c = c} {d = d} lr r lo w h b) =
      reports c raw_rule rule ((d ∷ raw_owner) ∷ (raws ++ rest)) (listed false o)
        (ruled (some o.pid)) (single o) lr (list_line-rule rule o r)
      ∙ ap (λ q. record { messages = single o ∷ q.messages; raised = q.raised })
          (list_lines-owner raw_owner line p raws es rest (some o.pid) d lo w h
            ∙ list_lines-Blocks (add_all es p) rest os b)

  -- Of a round over well-formed lines every process is reported with all its handles, in order, but
  -- the last, which is never reported.
  pub handlelist-Blocks :
      (pid : Option Text) (now : Text) (stub : LogMessage (Dict Text Owner)) (raws : List Text)
      (o : Owner) (os : List Owner)
      → Blocks raws (o ∷ os)
      → handlelist decode pid now stub raws ≡ record {
        messages = map (λ p. log_message now (codes "info") (single p) stub) (but_last o os);
        raised = none;
      }
  unfolding handlelist
  handlelist-Blocks pid now stub _ _ os
        (block {raw_rule = raw_rule} {rule = rule} {raw_owner = raw_owner} {line = line} {o = p}
          {raws = raws} {rest = rest} {es = es} {c = c} {d = d} lr r lo w h b) =
      let sent =
        goes_on c raw_rule rule ((d ∷ raw_owner) ∷ (raws ++ rest)) (begin_listing decode pid)
          (ruled pid) lr (list_line-first rule pid r)
        ∙ (list_lines-owner raw_owner line p raws es rest pid d lo w h
            ∙ list_lines-Blocks (add_all es p) rest os b) in
      ap
        (λ q. record {
          messages = map (λ m. log_message now (codes "info") m stub) q.messages;
          raised = q.raised;
        })
        sent
      ∙ ap (λ l. record { messages = l; raised = none })
          (map-map single (λ m. log_message now (codes "info") m stub) (but_last (add_all es p) os))
