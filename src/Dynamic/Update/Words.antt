-- ===== src/Dynamic/Update/Words.antt =====
-- The laws of 64-bit signed sums.
use cycle_enumeration_gpu.Prelude.{ℕ, ◌+◌, ◌%◌, ◌<◌, ◌≡◌, refl, sym, ap, ◌∙◌, arith}
use cycle_enumeration_gpu.Prelude.Int.{ℤ, pos, negsuc, ◌+ℤ◌, ◌-ℤ◌}
use cycle_enumeration_gpu.Dynamic.Update.{minus, to_long_long, word, ◌+ll◌, signed}

pub word-lt : (a : ℤ) → word a < 18446744073709551616
unfolding word
word-lt (pos n) = omega arith
word-lt (negsuc n) = omega arith

pub word-pos : (n : ℕ) → word (pos n) ≡ n % 18446744073709551616
unfolding word
word-pos n = refl

pub word-to_long_long : (c : ℕ) → c < 18446744073709551616 → word (to_long_long c) ≡ c
unfolding word to_long_long
word-to_long_long c h = ground arith

pub word-+ℤ : (a b : ℤ) → word (a +ℤ b) ≡ (word a + word b) % 18446744073709551616
unfolding word ◌+ℤ◌
word-+ℤ (pos m) (pos n) = ground arith
word-+ℤ (pos m) (negsuc n) = ground arith
word-+ℤ (negsuc m) (pos n) = ground arith
word-+ℤ (negsuc m) (negsuc n) = ground arith

word-negation : (c : ℤ) → (word (pos 0 -ℤ c) + word c) % 18446744073709551616 ≡ 0
unfolding word ◌-ℤ◌
word-negation (pos n) = ground arith
word-negation (negsuc n) = ground arith

-- A value that `long long` holds.
abbrev pub Held : ℤ → Type 0
Held a = to_long_long (word a) ≡ a

to_long_long-Held : (c : ℕ) → c < 18446744073709551616 → Held (to_long_long c)
to_long_long-Held c h = ap to_long_long (word-to_long_long c h)

pub zero-Held : Held (pos 0)
unfolding to_long_long word
zero-Held = refl

pub sum-Held : (a b : ℤ) → Held (a +ll b)
unfolding ◌+ll◌
sum-Held a b = to_long_long-Held (word (a +ℤ b)) (word-lt (a +ℤ b))

pub word-+ll : (a b : ℤ) → word (a +ll b) ≡ (word a + word b) % 18446744073709551616
unfolding ◌+ll◌
word-+ll a b = word-to_long_long (word (a +ℤ b)) (word-lt (a +ℤ b)) ∙ word-+ℤ a b

-- A sum is known by the words.
pub sum_of_words : (a b : ℤ) → a +ll b ≡ to_long_long ((word a + word b) % 18446744073709551616)
unfolding ◌+ll◌
sum_of_words a b = ap to_long_long (word-+ℤ a b)

pub +ll_assoc : (a b c : ℤ) → (a +ll b) +ll c ≡ a +ll (b +ll c)
+ll_assoc a b c =
    sum_of_words (a +ll b) c
    ∙ ap to_long_long (omega (arith, word-+ll a b, word-+ll b c))
    ∙ sym (sum_of_words a (b +ll c))

pub +ll_comm : (a b : ℤ) → a +ll b ≡ b +ll a
+ll_comm a b = sum_of_words a b ∙ ap to_long_long (omega arith) ∙ sym (sum_of_words b a)

pub word-zero : word (pos 0) ≡ 0
unfolding word
word-zero = refl

pub +ll-zero : (a : ℤ) → Held a → a +ll pos 0 ≡ a
+ll-zero a held =
    sum_of_words a (pos 0) ∙ ap to_long_long (omega (arith, word-zero, word-lt a)) ∙ held

pub zero-+ll : (a : ℤ) → Held a → pos 0 +ll a ≡ a
zero-+ll a held = +ll_comm (pos 0) a ∙ +ll-zero a held

-- A zero in a sum is lost.
pub plus_zero : (a b : ℤ) → a +ll (pos 0 +ll b) ≡ a +ll b
plus_zero a b =
    sum_of_words a (pos 0 +ll b)
    ∙ ap to_long_long (omega (arith, word-zero, word-+ll (pos 0) b))
    ∙ sym (sum_of_words a b)

pub zero_plus : (a b : ℤ) → (pos 0 +ll a) +ll b ≡ a +ll b
zero_plus a b = ap (λ z. z +ll b) (+ll_comm (pos 0) a) ∙ +ll_assoc a (pos 0) b ∙ plus_zero a b

-- A value and its negation.
pub word-minus : (c : ℤ) → (word (signed minus c) + word c) % 18446744073709551616 ≡ 0
unfolding signed
word-minus c =
    let taken = word-to_long_long (word (pos 0 -ℤ c)) (word-lt (pos 0 -ℤ c)) in
    omega (arith, taken, word-negation c)
