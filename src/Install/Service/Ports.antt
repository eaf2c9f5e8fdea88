-- ===== src/Install/Service/Ports.antt =====
-- The ports that the service's sensors get.
use virt_ue_sensing.Base.{
  ℕ, suc, ◌+◌, ◌≤◌, ◌≡◌, refl, ap, false, List, [], ◌∷◌, ◌++◌, map, length, All, arith, ◌∙◌, nat_Eq,
}
use virt_ue_sensing.Base.Text.{Text, codes}
use virt_ue_sensing.Base.Members.{mem, Distinct}
use virt_ue_sensing.Base.Exec.{ok, >>-ok, Exec, bind_ok, ◌>>◌, modify}
use virt_ue_sensing.Install.{text_item, Fs, each}
use virt_ue_sensing.Install.Service.{
  Installer, port_list, on_disk, ensure_dir, configure_at, configure_sensor, config_file,
}

-- The sensors with consecutive ports.
abbrev pub with_ports : ℕ → List Text → List (Text × ℕ)
with_ports n [] = []
with_ports n (name ∷ names) = (name, n) ∷ with_ports (n + 1) names

abbrev pub ports_of : List (Text × ℕ) → List ℕ
ports_of = map λ p. p.1

mem-with_ports :
    (n m : ℕ) (names : List Text) → suc m ≤ n → mem m (ports_of (with_ports n names)) ≡ false
mem-with_ports n m [] h = refl
mem-with_ports n m (name ∷ names) h =
    ground (arith, mem-with_ports (n + 1) m names (omega (arith, h)))

Distinct-with_ports : (n : ℕ) (names : List Text) → Distinct (ports_of (with_ports n names))
Distinct-with_ports n [] = tt
Distinct-with_ports n (name ∷ names) =
    (mem-with_ports (n + 1) n names (omega arith), Distinct-with_ports (n + 1) names)

free : (n : ℕ) → 11020 ≤ n → suc n ≤ 17141 → mem n port_list ≡ false
free n l h = ground (arith, l, h)

All-with_ports :
    (n : ℕ) (names : List Text)
    → 11020 ≤ n
    → n + length names ≤ 17141
    → All (λ p. mem p port_list ≡ false) (ports_of (with_ports n names))
All-with_ports n [] l h = tt
All-with_ports n (name ∷ names) l h = (
  free n l (omega (arith, h)),
  All-with_ports (n + 1) names (omega (arith, l)) (omega (arith, h)),
)

on_disk-ok {ℓ} :
    {S : Type ℓ} (m : Exec S (Unit {0})) (n : ℕ) (d t : S)
    → m d ≡ (ok tt, t)
    → on_disk m (record { disk = d; base_port_no = n })
      ≡ (ok tt, record { disk = t; base_port_no = n })
on_disk-ok m n d t e = ap (λ p. (p.0, record { disk = p.1; base_port_no = n })) e

module _ {ℓ} {S : Type ℓ} (fs : Fs S) (open_port : ℕ → Exec S (Unit {0}))
    (sysdrv svc_dir : Text) where
  -- A sensor's files with a given port.
  abbrev pub configure_pair : Text × ℕ → Exec S (Unit {0})
  configure_pair (name, port) = configure_at fs open_port sysdrv svc_dir name port

  configure_sensor-at :
      (name : Text) (n : ℕ) (d t : S)
      → configure_at fs open_port sysdrv svc_dir name n d ≡ (ok tt, t)
      → configure_sensor fs open_port sysdrv svc_dir
          (text_item name)
          (record { disk = d; base_port_no = n })
        ≡ (ok tt, record { disk = t; base_port_no = n + 1 })
  unfolding configure_at configure_sensor
  configure_sensor-at name n d t e =
      let made = ensure_dir fs open_port (fs.join (fs.join svc_dir (codes "certs")) name) in
      let written =
        fs.write (fs.join (fs.join svc_dir (codes "config")) (name ++ codes ".cfg"))
          (config_file sysdrv name n) in
      let (_, u, r, e1) = bind_ok made (λ _. written >> open_port n) d t tt e in
      let (_, v, w, o) = bind_ok written (λ _. open_port n) u t tt e1 in
      let bump : Exec (Installer S) (Unit {0}) =
        modify (λ s. record s { base_port_no = s.base_port_no + 1 }) in
      >>-ok (on_disk made) (on_disk written >> (bump >> on_disk (open_port n)))
        (record { disk = d; base_port_no = n }) (record { disk = u; base_port_no = n }) tt
        (on_disk-ok made n d u r)
      ∙ (>>-ok (on_disk written) (bump >> on_disk (open_port n))
            (record { disk = u; base_port_no = n }) (record { disk = v; base_port_no = n }) tt
            (on_disk-ok written n u v w)
          ∙ on_disk-ok (open_port n) (n + 1) v t o)

  configure_each-counts :
      (names : List Text) (n : ℕ) (d t : S)
      → each configure_pair (with_ports n names) d ≡ (ok tt, t)
      → each
          (configure_sensor fs open_port sysdrv svc_dir)
          (map text_item names)
          (record { disk = d; base_port_no = n })
        ≡ (ok tt, record { disk = t; base_port_no = n + length names })
  configure_each-counts [] n d t e =
      ap (λ p. (p.0, record { disk = p.1; base_port_no = n })) e
      ∙ ap (λ m. (ok tt, record { disk = t; base_port_no = m })) (omega arith)
  configure_each-counts (name ∷ names) n d t e =
      let (_, u, r, e1) =
        bind_ok (configure_pair (name, n)) (λ _. each configure_pair (with_ports (n + 1) names)) d t
          tt e in
      >>-ok (configure_sensor fs open_port sysdrv svc_dir (text_item name))
        (each (configure_sensor fs open_port sysdrv svc_dir) (map text_item names))
        (record { disk = d; base_port_no = n }) (record { disk = u; base_port_no = n + 1 }) tt
        (configure_sensor-at name n d u r)
      ∙ (configure_each-counts names (n + 1) u t e1
          ∙ ap (λ m. (ok tt, record { disk = t; base_port_no = m })) (omega arith))

  -- From port 11020 on, and up to port 17140: when the configuration of the sensors with consecutive
  -- ports succeeds, that from the counter does the same, and the counter ends behind them; the ports
  -- are distinct, and none is a port of the infrastructure.
  pub configure_each-ports :
      (names : List Text) (n : ℕ) (d t : S)
      → each configure_pair (with_ports n names) d ≡ (ok tt, t)
      → 11020 ≤ n
      → n + length names ≤ 17141
      → (each
            (configure_sensor fs open_port sysdrv svc_dir)
            (map text_item names)
            (record { disk = d; base_port_no = n })
          ≡ (ok tt, record { disk = t; base_port_no = n + length names }))
        × Distinct (ports_of (with_ports n names))
        × All (λ p. mem p port_list ≡ false) (ports_of (with_ports n names))
  configure_each-ports names n d t e l h =
      (configure_each-counts names n d t e, Distinct-with_ports n names, All-with_ports n names l h)
