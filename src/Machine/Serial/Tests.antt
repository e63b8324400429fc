-- ===== src/Machine/Serial/Tests.antt =====
-- Formats of arch/x86_64/serial.c.
use ggmk.Base.{◌^◌, ◌-◌, ◌≡◌, refl, none, some, [], ◌∷◌, codes}
use ggmk.Machine.Serial.{text, word, fill, kprintf, kprintf_from}

mixed :
    kprintf
      (codes "%s %d/%u 0x%x\n")
      (text (some (codes "cpu")) ∷ word (2 ^ 32 - 5) ∷ word 7 ∷ word 255 ∷ [])
    ≡ some (codes "cpu -5/7 0xff\r\n")
unfolding kprintf_from fill
mixed = refl

long :
    kprintf (codes "%lu %ld %p%%") (word (2 ^ 64 - 1) ∷ word (2 ^ 64 - 1) ∷ word 4096 ∷ [])
    ≡ some (codes "18446744073709551615 -1 0x1000%")
unfolding kprintf_from fill
long = refl

null : kprintf (codes "%s") (text none ∷ []) ≡ some (codes "(null)")
unfolding kprintf_from
null = refl

-- a format that ends behind `%` is read behind its end
percent_last : kprintf (codes "100%") [] ≡ none
unfolding kprintf_from
percent_last = refl
