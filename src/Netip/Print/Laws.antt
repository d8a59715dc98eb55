-- ===== src/Netip/Print/Laws.antt =====
-- A printed IPv4 address in front of another text.
use net_bird_audit.Prelude.{
  ℕ, ◌/◌, ◌%◌, ◌^◌, ◌<◌, ◌≡◌, refl, sym, ap, ◌∙◌, [], ◌∷◌, ◌++◌, Text, false, append_assoc, arith,
}
use net_bird_audit.Text.Decimal.{print}
use net_bird_audit.Text.Decimal.Scan.{starts_digit, is_digit}
use net_bird_audit.Text.Decimal.Cancel.{print_cancel}
use net_bird_audit.Netip.Types.{v4}
use net_bird_audit.Netip.Print.{print4, print_addr}

-- The four numbers, with the dots after them.
dotted : ℕ → Text → Text
dotted n s =
    print (n / 2 ^ 24)
    ++ b'.'
      ∷ (print (n / 2 ^ 16 % 256)
          ++ b'.' ∷ (print (n / 2 ^ 8 % 256) ++ b'.' ∷ (print (n % 256) ++ s)))

print4-append : (n : ℕ) (s : Text) → print4 n ++ s ≡ dotted n s
unfolding print4 dotted
print4-append n s = simp append_assoc

tail_of : Text → Text
tail_of [] = []
tail_of (c ∷ s) = s

dotted_cancel :
    (m n : ℕ) (s t : Text)
    → m < 2 ^ 32
    → n < 2 ^ 32
    → starts_digit s ≡ false
    → starts_digit t ≡ false
    → dotted m s ≡ dotted n t
    → (m ≡ n) × (s ≡ t)
unfolding dotted starts_digit is_digit tail_of
dotted_cancel m n s t hm hn es et e =
    let (a, e1) = print_cancel (m / 2 ^ 24) (n / 2 ^ 24) _ _ refl refl e in
    let (b, e2) =
      print_cancel (m / 2 ^ 16 % 256) (n / 2 ^ 16 % 256) _ _ refl refl (ap tail_of e1) in
    let (c, e3) = print_cancel (m / 2 ^ 8 % 256) (n / 2 ^ 8 % 256) _ _ refl refl (ap tail_of e2) in
    let (d, e4) = print_cancel (m % 256) (n % 256) s t es et (ap tail_of e3) in (omega arith, e4)

pub print_addr_cancel :
    (m n : ℕ) (s t : Text)
    → m < 2 ^ 32
    → n < 2 ^ 32
    → starts_digit s ≡ false
    → starts_digit t ≡ false
    → print_addr (v4 m) ++ s ≡ print_addr (v4 n) ++ t
    → (m ≡ n) × (s ≡ t)
unfolding print_addr
print_addr_cancel m n s t hm hn es et e =
    dotted_cancel m n s t hm hn es et (sym (print4-append m s) ∙ e ∙ print4-append n t)
