-- ===== src/Dns/Names.antt =====
-- src/app/dns_client.cpp: encode_name and decode_name, one against the other.
use neu_stack.Common.{
  ℕ, zero, suc, ◌+◌, ◌*◌, ◌≤◌, ◌<◌, ◌≡◌, ◌≢◌, refl, ap, sym, ◌∙◌, Bool, true, false, none, some,
  List, [], ◌∷◌, ◌++◌, length, length-append, get_or, take, drop, ltb, leb, ◌==◌, if◌then◌else◌,
  arith,
}
use mathlib.Core.List.{append_assoc, append-nil}
use neu_stack.Http.Text.{Bytes, find_byte}
use neu_stack.Dns.{
  copied, NameState, name_start, encode_label, encode_labels, encode_name, at, name_round,
  name_loop, name_rounds, decode_name,
}

-- No byte of the text is `c`.
abbrev pub Lacks : ℕ → Bytes → Type 0
Lacks c [] = Unit {0}
Lacks c (x ∷ xs) = (x ≢ c) × Lacks c xs

-- A label that the format can express.
pub record IsLabel (label : Bytes) : Type 0 where
  pub some_bytes : 0 < length label
  pub few_bytes : length label ≤ 63
  pub no_dot : Lacks 46 label

abbrev pub AreLabels : List Bytes → Type 0
AreLabels [] = Unit {0}
AreLabels (label ∷ rest) = IsLabel label × AreLabels rest

-- The labels with dots between them, and a dot in front unless they are the first.
abbrev pub joined : Bool → List Bytes → Bytes
joined first [] = []
joined first (label ∷ rest) = (if first then label else 46 ∷ label) ++ joined false rest

-- The labels of a name as a message has them.
abbrev pub wire : List Bytes → Bytes
wire [] = []
wire (label ∷ rest) = (length label ∷ label) ++ wire rest

find_byte-Lacks : (c : ℕ) (xs : Bytes) → Lacks c xs → find_byte c xs ≡ none
unfolding find_byte
find_byte-Lacks c [] h = refl
find_byte-Lacks c (x ∷ xs) h = ground (arith, h, find_byte-Lacks c xs h.1)

find_byte-append :
    (c : ℕ) (xs ys : Bytes) → Lacks c xs → find_byte c (xs ++ c ∷ ys) ≡ some (length xs)
unfolding find_byte
find_byte-append c [] ys h = ground arith
find_byte-append c (x ∷ xs) ys h = ground (arith, h, find_byte-append c xs ys h.1)

take_front : (xs ys : Bytes) → take (length xs) (xs ++ ys) ≡ xs
take_front [] ys = refl
take_front (x ∷ xs) ys = ap (◌∷◌ x) (take_front xs ys)

drop_front : (xs ys : Bytes) → drop (length xs) (xs ++ ys) ≡ ys
drop_front [] ys = refl
drop_front (x ∷ xs) ys = drop_front xs ys

get_or_front : (xs ys : Bytes) (y d : ℕ) → get_or (xs ++ y ∷ ys) (length xs) d ≡ y
get_or_front [] ys y d = refl
get_or_front (x ∷ xs) ys y d = get_or_front xs ys y d

drop_past : (xs ys : Bytes) (y : ℕ) → drop (length xs + 1) (xs ++ y ∷ ys) ≡ ys
drop_past xs ys y =
    let e : length xs + 1 ≡ length (xs ++ y ∷ []) = sym (length-append xs (y ∷ [])) in
    rw e (
      ap (drop (length (xs ++ y ∷ []))) (sym (append_assoc xs (y ∷ []) ys))
      ∙ drop_front (xs ++ y ∷ []) ys)

encode_label_lem : (label : Bytes) → length label ≤ 63 → encode_label label ≡ length label ∷ label
encode_label_lem label h = ground (arith, h)

encode_last :
    (fuel : ℕ) (label : Bytes)
    → IsLabel label
    → encode_labels (suc fuel) label ≡ length label ∷ label
unfolding encode_labels
encode_last fuel [] h = absurd (omega (arith, h.some_bytes))
encode_last fuel (c ∷ cs) h =
    rw (find_byte-Lacks 46 (c ∷ cs) h.no_dot, encode_labels) (encode_label_lem (c ∷ cs) h.few_bytes)

encode_first :
    (fuel : ℕ) (label tail : Bytes)
    → IsLabel label
    → encode_labels (suc fuel) (label ++ 46 ∷ tail)
      ≡ (length label ∷ label) ++ encode_labels fuel tail
unfolding encode_labels
encode_first fuel [] tail h = absurd (omega (arith, h.some_bytes))
encode_first fuel (c ∷ cs) tail h =
    let label = c ∷ cs in
    let found = find_byte-append 46 label tail h.no_dot in
    let front = take_front label (46 ∷ tail) in
    let behind = drop_past label tail 46 in
    rw (found, encode_labels)
      ((λ i. encode_label (front i) ++ encode_labels fuel (behind i))
        ∙ ap (λ l. l ++ encode_labels fuel tail) (encode_label_lem label h.few_bytes))

encode_labels-joined :
    (fuel : ℕ) (label : Bytes) (rest : List Bytes)
    → AreLabels (label ∷ rest)
    → length (joined true (label ∷ rest)) ≤ fuel
    → encode_labels fuel (joined true (label ∷ rest)) ≡ wire (label ∷ rest)
encode_labels-joined zero label rest h k =
    absurd (omega (arith, k, length-append label (joined false rest), h.0.some_bytes))
encode_labels-joined (suc fuel) label [] h k = rw (append-nil label) (encode_last fuel label h.0)
encode_labels-joined (suc fuel) label (next ∷ rest) h k =
    let size = length-append label (joined false (next ∷ rest)) in
    encode_first fuel label (joined true (next ∷ rest)) h.0
    ∙ ap (λ w. (length label ∷ label) ++ w)
        (encode_labels-joined fuel next rest h.1 (omega (arith, k, size)))

-- The name that has been read once the labels have.
module _ (outside : ℕ) where
  -- The loop stops behind the empty label.
  loop_end :
      (fuel : ℕ) (before after : Bytes) (s : NameState)
      → s.offset ≡ length before
      → name_loop outside (before ++ 0 ∷ after) (suc fuel) s
        ≡ some (record s { offset = s.offset + 1 })
  unfolding name_loop name_round
  loop_end fuel before after s e =
      let size = length-append before (0 ∷ after) in
      let zero_here : at outside (before ++ 0 ∷ after) s.offset ≡ 0 =
        rw e (get_or_front before after 0 outside) in
      let inside : leb (length (before ++ 0 ∷ after)) s.offset ≡ false = ground (arith, size, e) in
      rw (inside, name_loop, zero_here)

  copied_front :
      (before xs after : Bytes) (i : ℕ)
      → i ≡ length before
      → copied outside (before ++ (xs ++ after)) i (length xs) ≡ xs
  unfolding copied
  copied_front before [] after i e = refl
  copied_front before (x ∷ xs) after i e =
      let here : at outside (before ++ (x ∷ (xs ++ after))) i ≡ x =
        rw e (get_or_front before (xs ++ after) x outside) in
      let later : copied outside (before ++ (x ∷ (xs ++ after))) (i + 1) (length xs) ≡ xs =
        ap (λ d. copied outside d (i + 1) (length xs))
          (sym (append_assoc before (x ∷ []) (xs ++ after)))
        ∙ copied_front (before ++ (x ∷ [])) xs after (i + 1)
            (omega (arith, e, length-append before (x ∷ []))) in
      rw (here, later)

  -- A round takes a label.
  abbrev behind_label : Bytes → NameState → NameState
  behind_label label s = record s {
    result = (if s.first then s.result else s.result ++ (46 ∷ [])) ++ label;
    first = false;
    offset = s.offset + 1 + length label;
  }

  loop_label :
      (fuel : ℕ) (before label tail : Bytes) (s : NameState)
      → IsLabel label
      → s.offset ≡ length before
      → name_loop outside (before ++ (length label ∷ (label ++ tail))) (suc fuel) s
        ≡ name_loop outside (before ++ (length label ∷ (label ++ tail))) fuel (behind_label label s)
  unfolding name_loop name_round
  loop_label fuel before label tail s h e =
      let whole = before ++ (length label ∷ (label ++ tail)) in
      let size = length-append before (length label ∷ (label ++ tail)) in
      let size' = length-append label tail in
      let here : at outside whole s.offset ≡ length label =
        rw e (get_or_front before (label ++ tail) (length label) outside) in
      let inside : leb (length whole) s.offset ≡ false = ground (arith, size, e) in
      let short : leb 0xC0 (length label) ≡ false = ground (arith, h.few_bytes) in
      let some' : (length label == 0) ≡ false = ground (arith, h.some_bytes) in
      let room : ltb (length whole) (s.offset + 1 + length label) ≡ false =
        ground (arith, size, size', e) in
      let split : whole ≡ (before ++ (length label ∷ [])) ++ (label ++ tail) =
        sym (append_assoc before (length label ∷ []) (label ++ tail)) in
      let text : copied outside whole (s.offset + 1) (length label) ≡ label =
        ap (λ d. copied outside d (s.offset + 1) (length label)) split
        ∙ copied_front (before ++ (length label ∷ [])) label tail (s.offset + 1)
            (omega (arith, e, length-append before (length label ∷ []))) in
      rw (inside, name_loop, here, short, some', room, text)

  -- The text of the name so far, with the labels that follow.
  joined-behind :
      (first : Bool) (text label behind : Bytes)
      → ((if first then text else text ++ (46 ∷ [])) ++ label) ++ behind
        ≡ text ++ ((if first then label else 46 ∷ label) ++ behind)
  joined-behind true text label behind = append_assoc text label behind
  joined-behind false text label behind =
      append_assoc (text ++ (46 ∷ [])) label behind ∙ append_assoc text (46 ∷ []) (label ++ behind)

  pub loop_labels :
      (fuel : ℕ) (labels : List Bytes) (before after : Bytes) (s : NameState)
      → AreLabels labels
      → s.offset ≡ length before
      → length labels < fuel
      → (t : NameState) × (name_loop outside (before ++ (wire labels ++ 0 ∷ after)) fuel s ≡ some t)
        × (t.result ≡ s.result ++ joined s.first labels)
        × (t.offset ≡ s.offset + length (wire labels) + 1)
        × (t.jumped ≡ s.jumped)
  loop_labels zero labels before after s h e k = absurd (omega (arith, k))
  loop_labels (suc fuel) [] before after s h e k = (
    record s { offset = s.offset + 1 },
    loop_end fuel before after s e,
    sym (append-nil s.result),
    omega arith,
    refl,
  )
  loop_labels (suc fuel) (label ∷ rest) before after s h e k =
      let tail = wire rest ++ 0 ∷ after in
      let before' = before ++ (length label ∷ label) in
      let s' = behind_label label s in
      let here : s'.offset ≡ length before' =
        omega (arith, e, length-append before (length label ∷ label)) in
      let (t, run, text, offset, jumped) =
        loop_labels fuel rest before' after s' h.1 here (omega (arith, k)) in
      let inner : (wire (label ∷ rest) ++ 0 ∷ after) ≡ length label ∷ (label ++ tail) =
        ap (◌∷◌ (length label)) (append_assoc label (wire rest) (0 ∷ after)) in
      let shift : before ++ (length label ∷ (label ++ tail)) ≡ before' ++ tail =
        sym (append_assoc before (length label ∷ label) tail) in
      (
        t,
        ap (λ d. name_loop outside (before ++ d) (suc fuel) s) inner
            ∙ loop_label fuel before label tail s h.0 e
            ∙ ap (λ d. name_loop outside d fuel s') shift
            ∙ run,
        text ∙ joined-behind s.first s.result label (joined false rest),
        omega (arith, offset, length-append label (wire rest)),
        jumped,
      )

AreLabels-length : (labels : List Bytes) → AreLabels labels → length labels ≤ length (wire labels)
AreLabels-length [] h = omega arith
AreLabels-length (label ∷ rest) h =
    omega (arith, AreLabels-length rest h.1, length-append label (wire rest))

decode_name-wire :
    (outside : ℕ) (labels : List Bytes) (before after : Bytes)
    → AreLabels labels
    → decode_name outside (before ++ (wire labels ++ 0 ∷ after)) (length before)
      ≡ (joined true labels, length before + (length (wire labels) + 1))
unfolding decode_name
decode_name-wire outside labels before after h =
    let whole = before ++ (wire labels ++ 0 ∷ after) in
    let few : length labels < 12 * (length whole + 1) = omega (
      arith,
      AreLabels-length labels h,
      length-append before (wire labels ++ 0 ∷ after),
      length-append (wire labels) (0 ∷ after),
    ) in
    let (t, run, text, offset, jumped) =
      loop_labels outside (name_rounds outside whole) labels before after
        (name_start (length before)) h refl few in
    let end : length before + (length (wire labels) + 1) ≡ t.offset = omega (arith, offset) in
    rw (run, decode_name, jumped) (λ i. (text i, sym end i))

-- A name of one label or more, each of 1 to 63 bytes, is read back from where encode_name has put
-- it, whatever is before and behind it, and the offset moves behind it.
pub decode_name-encode_name :
    (outside : ℕ) (label : Bytes) (rest : List Bytes) (before after : Bytes)
    → AreLabels (label ∷ rest)
    → let name = joined true (label ∷ rest) in
      decode_name outside (before ++ (encode_name name ++ after)) (length before)
      ≡ (name, length before + length (encode_name name))
unfolding encode_name
decode_name-encode_name outside label rest before after h =
    let labels = label ∷ rest in
    let name = joined true labels in
    let encoded : encode_name name ≡ wire labels ++ (0 ∷ []) =
      ap (λ w. w ++ (0 ∷ [])) (encode_labels-joined (length name) label rest h (omega arith)) in
    let inner : encode_name name ++ after ≡ wire labels ++ 0 ∷ after =
      ap (λ w. w ++ after) encoded ∙ append_assoc (wire labels) (0 ∷ []) after in
    let size : length (wire labels) + 1 ≡ length (encode_name name) =
      omega (arith, ap length encoded, length-append (wire labels) (0 ∷ [])) in
    ap (λ d. decode_name outside (before ++ d) (length before)) inner
    ∙ decode_name-wire outside labels before after h
    ∙ ap (λ n. (name, length before + n)) size
