-- ===== src/Tests/Scrubbing.antt =====
-- Home paths in texts.
use hngh.Prelude.{◌≡◌, refl}
use hngh.Texts.{codes}
use hngh.Scrub.{redact_home}

redacted :
    (redact_home (codes "Path not found: /home/ann/.config/x.xml")
      ≡ codes "Path not found: ~/.config/x.xml")
    × (redact_home (codes "/Users/ann, /root and /tmp/a b") ≡ codes "~ ~ and ~tmp/a b")
    × (redact_home (codes "https://u:p@x.io/home/u/f ~/y /rooted")
        ≡ codes "https://[redacted]@x.io/home/u/f ~/y /rooted")
    × (redact_home (codes "//box/home/ann/f a/home/b /homework") ≡ codes "~/f a/home/b /homework")
    × (redact_home (codes "in /home: x") ≡ codes "in [redacted path]: x")
unfolding redact_home
redacted = (refl, refl, refl, refl, refl)
