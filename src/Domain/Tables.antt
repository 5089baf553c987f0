-- ===== src/Domain/Tables.antt =====
-- The tables of domains of src/url_tools.cpp, each entry written backwards.
use lspider.Common.{List, [], ◌∷◌, map, Bytes, codes}

abbrev pub top_domain : List Bytes
top_domain = map codes (
    "orea." ∷ "aisa." ∷ "zib." ∷ "tac." ∷ "moc." ∷ "pooc." ∷ "ude." ∷ "vog." ∷ "ofni." ∷ "tni."
    ∷ "sboj." ∷ "lim." ∷ "ibom." ∷ "muesum." ∷ "eman." ∷ "ten." ∷ "gro." ∷ "orp." ∷ "let."
    ∷ "levart." ∷ "xxx." ∷ [])

abbrev pub top_country : List Bytes
top_country = map codes (
    "ca." ∷ "da." ∷ "ea." ∷ "fa." ∷ "ga." ∷ "ia." ∷ "la." ∷ "ma." ∷ "na." ∷ "oa." ∷ "qa." ∷ "ra."
    ∷ "sa." ∷ "ta." ∷ "ua." ∷ "wa." ∷ "xa." ∷ "za." ∷ "ab." ∷ "bb." ∷ "db." ∷ "eb." ∷ "fb." ∷ "gb."
    ∷ "hb." ∷ "ib." ∷ "jb." ∷ "mb." ∷ "nb." ∷ "ob." ∷ "rb." ∷ "sb." ∷ "tb." ∷ "vb." ∷ "wb." ∷ "yb."
    ∷ "zb." ∷ "ac." ∷ "cc." ∷ "dc." ∷ "fc." ∷ "gc." ∷ "hc." ∷ "ic." ∷ "kc." ∷ "lc." ∷ "mc." ∷ "nc."
    ∷ "oc." ∷ "rc." ∷ "uc." ∷ "vc." ∷ "xc." ∷ "yc." ∷ "zc." ∷ "ed." ∷ "jd." ∷ "kd." ∷ "md." ∷ "od."
    ∷ "zd." ∷ "ce." ∷ "ee." ∷ "ge." ∷ "he." ∷ "re." ∷ "se." ∷ "te." ∷ "ue." ∷ "if." ∷ "jf." ∷ "kf."
    ∷ "mf." ∷ "of." ∷ "rf." ∷ "ag." ∷ "bg." ∷ "dg." ∷ "eg." ∷ "fg." ∷ "gg." ∷ "hg." ∷ "ig." ∷ "lg."
    ∷ "mg." ∷ "ng." ∷ "pg." ∷ "qg." ∷ "rg." ∷ "sg." ∷ "tg." ∷ "ug." ∷ "wg." ∷ "yg." ∷ "kh." ∷ "mh."
    ∷ "nh." ∷ "rh." ∷ "th." ∷ "uh." ∷ "di." ∷ "ei." ∷ "li." ∷ "mi." ∷ "ni." ∷ "oi." ∷ "qi." ∷ "ri."
    ∷ "si." ∷ "ti." ∷ "ej." ∷ "mj." ∷ "oj." ∷ "pj." ∷ "ek." ∷ "gk." ∷ "hk." ∷ "ik." ∷ "mk." ∷ "nk."
    ∷ "pk." ∷ "rk." ∷ "wk." ∷ "yk." ∷ "zk." ∷ "al." ∷ "bl." ∷ "cl." ∷ "il." ∷ "kl." ∷ "rl." ∷ "sl."
    ∷ "tl." ∷ "ul." ∷ "vl." ∷ "yl." ∷ "am." ∷ "cm." ∷ "dm." ∷ "em." ∷ "gm." ∷ "hm." ∷ "km." ∷ "lm."
    ∷ "mm." ∷ "nm." ∷ "om." ∷ "pm." ∷ "qm." ∷ "rm." ∷ "sm." ∷ "tm." ∷ "um." ∷ "vm." ∷ "wm." ∷ "xm."
    ∷ "ym." ∷ "zm." ∷ "an." ∷ "cn." ∷ "en." ∷ "fn." ∷ "gn." ∷ "in." ∷ "ln." ∷ "on." ∷ "pn." ∷ "rn."
    ∷ "un." ∷ "zn." ∷ "mo." ∷ "ap." ∷ "ep." ∷ "fp." ∷ "gp." ∷ "hp." ∷ "kp." ∷ "lp." ∷ "mp." ∷ "np."
    ∷ "rp." ∷ "sp." ∷ "tp." ∷ "wp." ∷ "yp." ∷ "aq." ∷ "er." ∷ "or." ∷ "sr." ∷ "ur." ∷ "wr." ∷ "as."
    ∷ "bs." ∷ "cs." ∷ "ds." ∷ "es." ∷ "gs." ∷ "hs." ∷ "is." ∷ "js." ∷ "ks." ∷ "ls." ∷ "ms." ∷ "ns."
    ∷ "os." ∷ "rs." ∷ "ts." ∷ "us." ∷ "vs." ∷ "ys." ∷ "zs." ∷ "ct." ∷ "dt." ∷ "ft." ∷ "gt." ∷ "ht."
    ∷ "jt." ∷ "kt." ∷ "lt." ∷ "mt." ∷ "nt." ∷ "ot." ∷ "pt." ∷ "rt." ∷ "tt." ∷ "vt." ∷ "wt." ∷ "zt."
    ∷ "au." ∷ "gu." ∷ "ku." ∷ "mu." ∷ "su." ∷ "yu." ∷ "zu." ∷ "av." ∷ "cv." ∷ "ev." ∷ "gv." ∷ "iv."
    ∷ "nv." ∷ "uv." ∷ "fw." ∷ "sw." ∷ "ey." ∷ "ty." ∷ "uy." ∷ "ry." ∷ "az." ∷ "mz." ∷ "wz." ∷ [])

abbrev pub general_2nd_domain : List Bytes
general_2nd_domain = map codes ("moc." ∷ "ten." ∷ "gro." ∷ "vog." ∷ "ude." ∷ "oc." ∷ [])

abbrev pub cn_domain : List Bytes
cn_domain = map codes (
    "nc.ca." ∷ "nc.moc." ∷ "nc.ude." ∷ "nc.vog." ∷ "nc.ten." ∷ "nc.gro." ∷ "nc.ha." ∷ "nc.jb."
    ∷ "nc.qc." ∷ "nc.jf." ∷ "nc.dg." ∷ "nc.sg." ∷ "nc.zg." ∷ "nc.xg." ∷ "nc.ah." ∷ "nc.bh."
    ∷ "nc.eh." ∷ "nc.ih." ∷ "nc.kh." ∷ "nc.lh." ∷ "nc.nh." ∷ "nc.lj." ∷ "nc.sj." ∷ "nc.xj."
    ∷ "nc.nl." ∷ "nc.mn." ∷ "nc.xn." ∷ "nc.hq." ∷ "nc.cs." ∷ "nc.ds." ∷ "nc.hs." ∷ "nc.ns."
    ∷ "nc.xs." ∷ "nc.jt." ∷ "nc.wt." ∷ "nc.jx." ∷ "nc.zx." ∷ "nc.ny." ∷ "nc.jz." ∷ [])

abbrev pub tw_domain : List Bytes
tw_domain = map codes (
    "wt.ude." ∷ "wt.vog." ∷ "wt.lim." ∷ "wt.moc." ∷ "wt.ten." ∷ "wt.gro." ∷ "wt.vdi." ∷ "wt.emag."
    ∷ "wt.zibe." ∷ "wt.bulc." ∷ [])

abbrev pub hk_domain : List Bytes
hk_domain = map codes ("kh.moc." ∷ "kh.ude." ∷ "kh.vog." ∷ "kh.vdi." ∷ "kh.ten." ∷ "kh.gro." ∷ [])

abbrev pub uk_domain : List Bytes
uk_domain = map codes (
    "ku.ca." ∷ "ku.oc." ∷ "ku.vog." ∷ "ku.dtl." ∷ "ku.em." ∷ "ku.dom." ∷ "ku.ten." ∷ "ku.shn."
    ∷ "ku.cin." ∷ "ku.gro." ∷ "ku.tnemailrap." ∷ "ku.clp." ∷ "ku.hcs." ∷ [])

abbrev pub jp_domain : List Bytes
jp_domain =
    map codes
      ("pj.da." ∷ "pj.oc." ∷ "pj.de." ∷ "pj.og." ∷ "pj.rg." ∷ "pj.gl." ∷ "pj.en." ∷ "pj.ro." ∷ [])

abbrev pub kr_domain : List Bytes
kr_domain = map codes (
    "rk.oc." ∷ "rk.en." ∷ "rk.ro." ∷ "rk.er." ∷ "rk.ep." ∷ "rk.og." ∷ "rk.lim." ∷ "rk.ca."
    ∷ "rk.sh." ∷ "rk.sm." ∷ "rk.se." ∷ "rk.cs." ∷ "rk.gk." ∷ "rk.luoes." ∷ "rk.nasub." ∷ "rk.ugead."
    ∷ "rk.noehcni." ∷ "rk.ujgnawg." ∷ "rk.noejead." ∷ "rk.naslu." ∷ "rk.iggnoeyg." ∷ "rk.nowgnag."
    ∷ "rk.kubgnuhc." ∷ "rk.mangnuhc." ∷ "rk.kubnoej." ∷ "rk.mannoej." ∷ "rk.kubgnoeyg."
    ∷ "rk.mangnoeyg." ∷ "rk.ujej." ∷ [])

abbrev pub il_domain : List Bytes
il_domain = map codes (
    "li.ca." ∷ "li.oc." ∷ "li.gro." ∷ "li.ten." ∷ "li.21k." ∷ "li.vog." ∷ "li.inum." ∷ "li.fdi."
    ∷ [])

abbrev pub nz_domain : List Bytes
nz_domain = map codes (
    "zn.ca." ∷ "zn.oc." ∷ "zn.keeg." ∷ "zn.neg." ∷ "zn.iroam." ∷ "zn.ten." ∷ "zn.gro." ∷ "zn.irc."
    ∷ "zn.tvog." ∷ "zn.iwi." ∷ "zn.tnemailrap." ∷ "zn.lim." ∷ [])

abbrev pub th_domain : List Bytes
th_domain = map codes ("ht.ni." ∷ "ht.oc." ∷ [])

abbrev pub domain_map : List (Bytes × List Bytes)
domain_map =
    (codes "nc.", cn_domain)
    ∷ (codes "wt.", tw_domain)
    ∷ (codes "kh.", hk_domain)
    ∷ (codes "ku.", uk_domain)
    ∷ (codes "pj.", jp_domain)
    ∷ (codes "rk.", kr_domain)
    ∷ (codes "li.", il_domain)
    ∷ (codes "zn.", nz_domain)
    ∷ (codes "ht.", th_domain)
    ∷ []
