-- ===== src/LogStream/Held.antt =====
-- The bytes that write of internal/services/logsink.go holds back.
use webhook_ui.Common.{
  ℕ, zero, suc, ◌+◌, ◌-◌, ◌≤◌, ◌≡◌, refl, sym, ap, ◌∙◌, Bool, true, false, ◌&&◌, ◌||◌, [], ◌∷◌,
  ◌++◌, append-nil, length, drop, leb, ltb, if◌then◌else◌, Bytes, arith, Bool-cases, inl, inr,
}
use webhook_ui.LogStream.{rune_start, rune_len_for, walk_back, last_first, incomplete_tail_len}

-- How many bytes a rune has, by its first byte: 110x xxxx, 1110 xxxx and 1111 0xxx announce more.
abbrev pub announced : ℕ → ℕ
announced c =
    if leb 0xF8 c
    then 1
    else if leb 0xF0 c
    then 4
    else if leb 0xE0 c
    then 3
    else if leb 0xC0 c
    then 2
    else 1

abbrev pub has_start : Bytes → Bool
has_start [] = false
has_start (c ∷ s) = rune_start c || has_start s

-- What a text ends with from its last first byte on, if that announces more bytes than are there.
unfoldable pub cut_rune : Bytes → Bytes
cut_rune [] = []
cut_rune (c ∷ s) =
    let rest = cut_rune s in
    if has_start s
    then rest
    else if rune_start c && ltb (length (c ∷ s)) (announced c)
    then c ∷ s
    else []

cut_rune-cont : (s : Bytes) → has_start s ≡ false → cut_rune s ≡ []
unfolding cut_rune
cut_rune-cont [] h = refl
cut_rune-cont (c ∷ s) h = ground (arith, cut_rune-cont s)

has_start-last_first : (r s : Bytes) → has_start s ≡ true → has_start (last_first r s) ≡ true
unfolding last_first
has_start-last_first [] s h = h
has_start-last_first (c ∷ r) s h = has_start-last_first r (c ∷ s) (ground (arith, h))

-- What stands before a first byte does not matter.
cut_rune-last_first : (r s : Bytes) → has_start s ≡ true → cut_rune (last_first r s) ≡ cut_rune s
unfolding last_first
cut_rune-last_first [] s h = refl
cut_rune-last_first (c ∷ r) s h =
    cut_rune-last_first r (c ∷ s) (ground (arith, h)) ∙ unfold cut_rune in rw h refl

-- Four bytes and more that start no rune end no rune that is cut.
cut_rune-long : (r s : Bytes) → has_start s ≡ false → 4 ≤ length s → cut_rune (last_first r s) ≡ []
unfolding last_first
cut_rune-long [] s h n = cut_rune-cont s h
cut_rune-long (c ∷ r) s h n = elim (Bool-cases (rune_start c)) [
  | inl e ↦
      cut_rune-last_first r (c ∷ s) (ground (arith, e)) ∙ unfold cut_rune in ground (arith, h, n, e)
  | inr e ↦ cut_rune-long r (c ∷ s) (ground (arith, h, e)) (omega (arith, n))
]

cut_rune-start :
    (c : ℕ) (s : Bytes)
    → has_start s ≡ false
    → rune_start c ≡ true
    → length (cut_rune (c ∷ s)) ≡ (if ltb (length s + 1) (announced c) then length s + 1 else 0)
unfolding cut_rune
cut_rune-start c s h i = ground (arith, h, i)

rune_len_for_lem : (c : ℕ) → rune_start c ≡ true → rune_len_for c ≡ announced c
unfolding rune_len_for
rune_len_for_lem c i = ground (arith, i)

walk_back_lem :
    (n : ℕ) (r s : Bytes)
    → has_start s ≡ false
    → n + length s ≡ 4
    → walk_back n (length s + 1) r ≡ length (cut_rune (last_first r s))
unfolding walk_back last_first
walk_back_lem zero r s h e = sym (ap length (cut_rune-long r s h (omega (arith, e))))
walk_back_lem (suc n) [] s h e = sym (ap length (cut_rune-cont s h))
walk_back_lem (suc n) (c ∷ r) s h e = elim (Bool-cases (rune_start c)) [
  | inl i ↦
      let same = cut_rune-last_first r (c ∷ s) (ground (arith, i)) in
      rw (i, rune_len_for_lem c i) (sym (ap length same ∙ cut_rune-start c s h i))
  | inr i ↦
      let same : length s + 1 ≡ length (c ∷ s) = omega arith in
      rw (i, same) (walk_back_lem n r (c ∷ s) (ground (arith, h, i)) (omega (arith, e)))
]

cut_rune-le : (b : Bytes) → length (cut_rune b) ≤ length b
unfolding cut_rune
cut_rune-le [] = omega arith
cut_rune-le (c ∷ s) = ground (arith, cut_rune-le s)

drop_all : (s : Bytes) → drop (length s) s ≡ []
drop_all [] = refl
drop_all (c ∷ s) = drop_all s

drop-suc :
    (k c : ℕ) (s : Bytes) → k ≤ length s → drop (suc (length s) - k) (c ∷ s) ≡ drop (length s - k) s
drop-suc k c s le =
    let step : suc (length s) - k ≡ suc (length s - k) = omega (arith, le) in rw step refl

-- It is an end of the text.
drop-cut_rune : (b : Bytes) → drop (length b - length (cut_rune b)) b ≡ cut_rune b
unfolding cut_rune
drop-cut_rune [] = refl
drop-cut_rune (c ∷ s) = elim (Bool-cases (has_start s)) [
  | inl e ↦ rw e (drop-suc (length (cut_rune s)) c s (cut_rune-le s) ∙ drop-cut_rune s)
  | inr e ↦ elim (Bool-cases (rune_start c && ltb (length (c ∷ s)) (announced c))) [
    | inl e' ↦ let all : length (c ∷ s) - length (c ∷ s) ≡ 0 = omega arith in rw (e, e', all) refl
    | inr e' ↦
        let none_left : length (c ∷ s) - 0 ≡ length (c ∷ s) = omega arith in
        rw (e, e', none_left) (drop_all (c ∷ s))
  ]
]

last_first-twice : (b s t : Bytes) → last_first (last_first b s) t ≡ last_first s (b ++ t)
unfolding last_first
last_first-twice [] s t = refl
last_first-twice (c ∷ b) s t = last_first-twice b (c ∷ s) t

-- incompleteTailLen is the length of the rune that is cut.
pub incomplete_tail_len_lem : (b : Bytes) → incomplete_tail_len b ≡ length (cut_rune b)
unfolding incomplete_tail_len last_first
incomplete_tail_len_lem b =
    walk_back_lem 4 (last_first b []) [] refl refl
    ∙ ap (λ t. length (cut_rune t)) (last_first-twice b [] [] ∙ append-nil b)

pub held_back : (b : Bytes) → drop (length b - incomplete_tail_len b) b ≡ cut_rune b
held_back b = ap (λ k. drop (length b - k) b) (incomplete_tail_len_lem b) ∙ drop-cut_rune b
