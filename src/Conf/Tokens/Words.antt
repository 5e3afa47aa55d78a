-- ===== src/Conf/Tokens/Words.antt =====
-- getconf/GetConf.c: a token is the word that stands at the place reached.
use qnxstuff.Prelude.{
  ℕ, zero, suc, ◌+◌, ◌-◌, ◌<◌, ◌≤◌, ◌≡◌, refl, sym, ap, ◌∙◌, ◌≢◌, true, false, some, List, [], ◌∷◌,
  ◌++◌, arith, length, set, take, drop, All, eqb_of_ne,
}
use qnxstuff.Conf.Tokens.{
  Conf, last_place, conf_comment, is_blank, is_end, skip, word_length, get_conf_token, with_line,
  line_result, get_conf_string,
}

abbrev pub Blank : List ℕ → Type 0
Blank bytes = All (λ c. is_blank c ≡ true) bytes

abbrev pub Word : List ℕ → Type 0
Word bytes = All (λ c. is_end c ≡ false) bytes

skip_lem :
    (bs : List ℕ) (x : ℕ) (ys : List ℕ) (n : ℕ)
    → Blank bs
    → is_blank x ≡ false
    → length bs ≤ n
    → skip n (bs ++ (x ∷ ys)) ≡ length bs
unfolding skip
skip_lem [] x ys zero b e le = refl
skip_lem [] x ys (suc n) b e le = rw e refl
skip_lem (c ∷ bs) x ys zero b e le = absurd (omega arith)
skip_lem (c ∷ bs) x ys (suc n) (t, b) e le = rw t (ap suc (skip_lem bs x ys n b e (omega arith)))

word_length_lem :
    (w : List ℕ) (x : ℕ) (ys : List ℕ) (n : ℕ)
    → Word w
    → is_end x ≡ true
    → length w ≤ n
    → word_length n (w ++ (x ∷ ys)) ≡ length w
unfolding word_length
word_length_lem [] x ys zero b e le = refl
word_length_lem [] x ys (suc n) b e le = rw e refl
word_length_lem (c ∷ w) x ys zero b e le = absurd (omega arith)
word_length_lem (c ∷ w) x ys (suc n) (t, b) e le =
    rw t (ap suc (word_length_lem w x ys n b e (omega arith)))

drop_none : (n : ℕ) → drop {A = ℕ} n [] ≡ []
drop_none zero = refl
drop_none (suc n) = refl

drop-drop : (a b : ℕ) (xs : List ℕ) → drop (a + b) xs ≡ drop b (drop a xs)
drop-drop zero b xs = ap (λ n. drop n xs) (omega arith)
drop-drop (suc a) b [] =
    let e : suc a + b ≡ suc (a + b) = omega arith in ap (λ n. drop n []) e ∙ sym (drop_none b)
drop-drop (suc a) b (x ∷ xs) =
    let e : suc a + b ≡ suc (a + b) = omega arith in ap (λ n. drop n (x ∷ xs)) e ∙ drop-drop a b xs

drop-append : (xs ys : List ℕ) → drop (length xs) (xs ++ ys) ≡ ys
drop-append [] ys = refl
drop-append (x ∷ xs) ys = drop-append xs ys

take-append : (xs ys : List ℕ) → take (length xs) (xs ++ ys) ≡ xs
take-append [] ys = refl
take-append (x ∷ xs) ys = ap (λ l. x ∷ l) (take-append xs ys)

-- The token ended at a place.
abbrev pub after : Conf → ℕ → Conf
after c end = record c { string = set c.string end 0; token = end + 1 }

-- If from the place reached on the string holds blanks, a word that does not begin with the mark of a
-- comment, and what ends it, all within its first 4096 bytes, then GetConf_token returns that word,
-- overwrites its end by a NUL, and the place reached is behind it.
pub get_conf_token_lem :
    (c : Conf) (bs : List ℕ) (x : ℕ) (w : List ℕ) (e : ℕ) (rest : List ℕ)
    → drop c.token c.string ≡ bs ++ (x ∷ (w ++ (e ∷ rest)))
    → Blank bs
    → Word (x ∷ w)
    → is_end e ≡ true
    → x ≢ conf_comment
    → c.token + length bs + length (x ∷ w) ≤ last_place
    → get_conf_token c ≡ (some (x ∷ w), after c (c.token + length bs + length (x ∷ w)))
unfolding get_conf_token
get_conf_token_lem c bs x w e rest here blank (t, word) end no_comment fits =
    let skipped : skip (last_place - c.token) (drop c.token c.string) ≡ length bs =
      ap (skip (last_place - c.token)) here
      ∙ skip_lem bs x (w ++ (e ∷ rest)) (last_place - c.token) blank (ground (arith, t))
          (omega arith) in
    let start = c.token + length bs in
    let at : drop start c.string ≡ x ∷ (w ++ (e ∷ rest)) =
      drop-drop c.token (length bs) c.string
      ∙ (ap (drop (length bs)) here ∙ drop-append bs (x ∷ (w ++ (e ∷ rest)))) in
    let long : word_length (last_place - start) (x ∷ (w ++ (e ∷ rest))) ≡ length (x ∷ w) =
      word_length_lem (x ∷ w) e rest (last_place - start) (t, word) end (omega arith) in
    let next : Conf = after c (start + length (x ∷ w)) in
    rw (skipped, at, t, eqb_of_ne x conf_comment no_comment, long)
      (ap (λ l. (some (x ∷ l), next)) (take-append w (e ∷ rest)))

drop-set : (xs : List ℕ) (n v : ℕ) → drop (suc n) (set xs n v) ≡ drop (suc n) xs
drop-set [] n v = refl
drop-set (x ∷ xs) zero v = refl
drop-set (x ∷ xs) (suc n) v = drop-set xs n v

drop_behind : (l : List ℕ) (e : ℕ) (ys : List ℕ) → drop (length l + 1) (l ++ (e ∷ ys)) ≡ ys
drop_behind l e ys = drop-drop (length l) 1 (l ++ (e ∷ ys)) ∙ ap (drop 1) (drop-append l (e ∷ ys))

-- The last line of a file is one word, no comment, without a newline, and behind as many bytes and one
-- more, the string still holds a word of an earlier line that is no comment: GetConf_string returns the word
-- of the line, and the GetConf_token after it returns the word of the earlier line.
pub stale_token :
    (c : Conf) (x : ℕ) (w : List ℕ) (y : ℕ) (v : List ℕ) (e : ℕ) (rest : List ℕ)
    → Word (x ∷ w)
    → x ≢ conf_comment
    → drop (length (x ∷ w) + 1) c.string ≡ y ∷ (v ++ (e ∷ rest))
    → Word (y ∷ v)
    → y ≢ conf_comment
    → is_end e ≡ true
    → length (x ∷ w) + length (y ∷ v) < last_place
    → (c' : Conf) × (get_conf_string ((x ∷ w) ∷ []) c ≡ (some (x ∷ w), (c', [])))
      × (c'' : Conf) × (get_conf_token c' ≡ (some (y ∷ v), c''))
unfolding get_conf_string
stale_token c x w y v e rest word no_comment stale old no_comment' end fits =
    let l = x ∷ w in
    let filled = with_line c l in
    let one =
      get_conf_token_lem filled [] x w 0 (drop (length l + 1) c.string) refl tt word refl no_comment
        (omega arith) in
    let n = 0 + 0 + length l in
    let c' = after filled n in
    let next : n + 1 ≡ suc n = omega arith in
    let behind : suc n ≡ length l + 1 = omega arith in
    let moved : drop c'.token c'.string ≡ y ∷ (v ++ (e ∷ rest)) =
      ap (λ m. drop m c'.string) next
      ∙ (drop-set filled.string n 0
          ∙ (ap (λ m. drop m filled.string) behind
              ∙ (drop_behind l 0 (drop (length l + 1) c.string) ∙ stale))) in
    let two = get_conf_token_lem c' [] y v e rest moved tt old end no_comment' (omega arith) in
    (c', ap (λ r. line_result [] (get_conf_string [] r.1) r) one, _, two)
