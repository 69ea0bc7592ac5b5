-- ===== src/Interrupts/Kbdmap.antt =====
-- The table of kern/kbd.h: four bytes for each key, alone, with shift, and two that are not used.
use creeks_old.Base.{ℕ, List, [], ◌∷◌}

abbrev pub kbdmap : List ℕ
kbdmap =
    27 ∷ 27 ∷ 27 ∷ 27 ∷ 38 ∷ 49 ∷ 255 ∷ 255 ∷ 101 ∷ 50 ∷ 126 ∷ 255 ∷ 34 ∷ 51 ∷ 35 ∷ 255 ∷ 39 ∷ 52
    ∷ 123 ∷ 255 ∷ 40 ∷ 53 ∷ 91 ∷ 255 ∷ 45 ∷ 54 ∷ 124 ∷ 255 ∷ 101 ∷ 55 ∷ 96 ∷ 255 ∷ 95 ∷ 56 ∷ 92
    ∷ 255 ∷ 99 ∷ 57 ∷ 94 ∷ 255 ∷ 97 ∷ 48 ∷ 64 ∷ 255 ∷ 41 ∷ 32 ∷ 93 ∷ 255 ∷ 61 ∷ 43 ∷ 125 ∷ 255 ∷ 8
    ∷ 8 ∷ 127 ∷ 8 ∷ 9 ∷ 9 ∷ 9 ∷ 9 ∷ 97 ∷ 65 ∷ 113 ∷ 113 ∷ 122 ∷ 90 ∷ 119 ∷ 119 ∷ 101 ∷ 69 ∷ 101
    ∷ 101 ∷ 114 ∷ 82 ∷ 114 ∷ 114 ∷ 116 ∷ 84 ∷ 116 ∷ 116 ∷ 121 ∷ 89 ∷ 121 ∷ 121 ∷ 117 ∷ 85 ∷ 117
    ∷ 117 ∷ 105 ∷ 73 ∷ 105 ∷ 105 ∷ 111 ∷ 79 ∷ 111 ∷ 111 ∷ 112 ∷ 80 ∷ 112 ∷ 112 ∷ 94 ∷ 32 ∷ 255 ∷ 255
    ∷ 36 ∷ 32 ∷ 255 ∷ 255 ∷ 10 ∷ 10 ∷ 10 ∷ 10 ∷ 255 ∷ 255 ∷ 255 ∷ 255 ∷ 113 ∷ 81 ∷ 97 ∷ 97 ∷ 115
    ∷ 83 ∷ 115 ∷ 115 ∷ 100 ∷ 68 ∷ 100 ∷ 100 ∷ 102 ∷ 70 ∷ 102 ∷ 102 ∷ 103 ∷ 71 ∷ 103 ∷ 103 ∷ 104 ∷ 72
    ∷ 104 ∷ 104 ∷ 106 ∷ 74 ∷ 106 ∷ 106 ∷ 107 ∷ 75 ∷ 107 ∷ 107 ∷ 108 ∷ 76 ∷ 108 ∷ 108 ∷ 109 ∷ 77
    ∷ 109 ∷ 109 ∷ 117 ∷ 37 ∷ 255 ∷ 255 ∷ 42 ∷ 117 ∷ 255 ∷ 255 ∷ 255 ∷ 255 ∷ 255 ∷ 255 ∷ 42 ∷ 117
    ∷ 255 ∷ 255 ∷ 119 ∷ 87 ∷ 119 ∷ 119 ∷ 120 ∷ 88 ∷ 120 ∷ 120 ∷ 99 ∷ 67 ∷ 99 ∷ 99 ∷ 118 ∷ 86 ∷ 118
    ∷ 118 ∷ 98 ∷ 66 ∷ 98 ∷ 98 ∷ 110 ∷ 78 ∷ 110 ∷ 110 ∷ 44 ∷ 63 ∷ 255 ∷ 255 ∷ 59 ∷ 46 ∷ 255 ∷ 255
    ∷ 58 ∷ 47 ∷ 255 ∷ 255 ∷ 33 ∷ 32 ∷ 255 ∷ 255 ∷ 255 ∷ 255 ∷ 255 ∷ 255 ∷ 255 ∷ 255 ∷ 255 ∷ 255
    ∷ 255 ∷ 255 ∷ 255 ∷ 255 ∷ 32 ∷ 32 ∷ 32 ∷ 32 ∷ 255 ∷ 255 ∷ 255 ∷ 255 ∷ 255 ∷ 255 ∷ 255 ∷ 255
    ∷ 255 ∷ 255 ∷ 255 ∷ 255 ∷ 255 ∷ 255 ∷ 255 ∷ 255 ∷ 255 ∷ 255 ∷ 255 ∷ 255 ∷ 255 ∷ 255 ∷ 255 ∷ 255
    ∷ 255 ∷ 255 ∷ 255 ∷ 255 ∷ 255 ∷ 255 ∷ 255 ∷ 255 ∷ 255 ∷ 255 ∷ 255 ∷ 255 ∷ 255 ∷ 255 ∷ 255 ∷ 255
    ∷ 255 ∷ 255 ∷ 255 ∷ 255 ∷ 255 ∷ 255 ∷ 255 ∷ 255 ∷ 255 ∷ 255 ∷ 255 ∷ 255 ∷ 255 ∷ 255 ∷ 255 ∷ 255
    ∷ 255 ∷ 255 ∷ 255 ∷ 255 ∷ 255 ∷ 255 ∷ 255 ∷ 255 ∷ 255 ∷ 255 ∷ 255 ∷ 255 ∷ 255 ∷ 255 ∷ 255 ∷ 255
    ∷ 255 ∷ 255 ∷ 255 ∷ 255 ∷ 255 ∷ 255 ∷ 255 ∷ 255 ∷ 255 ∷ 255 ∷ 255 ∷ 255 ∷ 255 ∷ 255 ∷ 255 ∷ 255
    ∷ 255 ∷ 255 ∷ 255 ∷ 255 ∷ 255 ∷ 255 ∷ 255 ∷ 255 ∷ 255 ∷ 255 ∷ 255 ∷ 255 ∷ 255 ∷ 255 ∷ 255 ∷ 255
    ∷ 255 ∷ 255 ∷ 255 ∷ 255 ∷ 255 ∷ 255 ∷ 255 ∷ 255 ∷ 60 ∷ 62 ∷ 255 ∷ 255 ∷ 255 ∷ 255 ∷ 255 ∷ 255
    ∷ 255 ∷ 255 ∷ 255 ∷ 255 ∷ 255 ∷ 255 ∷ 255 ∷ 255 ∷ 255 ∷ 255 ∷ 255 ∷ 255 ∷ 255 ∷ 255 ∷ 255 ∷ 255
    ∷ 255 ∷ 255 ∷ 255 ∷ 255 ∷ 255 ∷ 255 ∷ 255 ∷ 255 ∷ 255 ∷ 255 ∷ 255 ∷ 255 ∷ 255 ∷ 255 ∷ 255 ∷ 255
    ∷ 255 ∷ 255 ∷ 255 ∷ 255 ∷ 255 ∷ 255 ∷ 255 ∷ 255 ∷ []
