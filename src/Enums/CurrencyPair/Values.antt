-- ===== src/Enums/CurrencyPair/Values.antt =====
-- `CURRENCY_PAIR.values()` (enums/currency_pair.py).
use crypto_crawler.Prelude.{List, [], ◌∷◌}
use crypto_crawler.Enums.CurrencyPair.{CurrencyPair}

unfoldable pub values : List CurrencyPair
values =
    CurrencyPair.btc_to_dash ∷ CurrencyPair.btc_to_eth ∷ CurrencyPair.btc_to_ltc
    ∷ CurrencyPair.btc_to_xrp ∷ CurrencyPair.btc_to_bcc ∷ CurrencyPair.btc_to_etc
    ∷ CurrencyPair.btc_to_sc ∷ CurrencyPair.btc_to_dgb ∷ CurrencyPair.btc_to_xem
    ∷ CurrencyPair.btc_to_ardr ∷ CurrencyPair.btc_to_omg ∷ CurrencyPair.btc_to_zec
    ∷ CurrencyPair.btc_to_rep ∷ CurrencyPair.btc_to_xmr ∷ CurrencyPair.btc_to_doge
    ∷ CurrencyPair.btc_to_dcr ∷ CurrencyPair.btc_to_neo ∷ CurrencyPair.btc_to_qtum
    ∷ CurrencyPair.btc_to_eos ∷ CurrencyPair.btc_to_iota ∷ CurrencyPair.btc_to_btg
    ∷ CurrencyPair.btc_to_wtc ∷ CurrencyPair.btc_to_knc ∷ CurrencyPair.btc_to_bat
    ∷ CurrencyPair.btc_to_zrx ∷ CurrencyPair.btc_to_rdn ∷ CurrencyPair.btc_to_gas
    ∷ CurrencyPair.btc_to_ada ∷ CurrencyPair.btc_to_rcn ∷ CurrencyPair.btc_to_qsp
    ∷ CurrencyPair.btc_to_xby ∷ CurrencyPair.btc_to_pac ∷ CurrencyPair.btc_to_rdd
    ∷ CurrencyPair.btc_to_icx ∷ CurrencyPair.btc_to_wabi ∷ CurrencyPair.btc_to_xlm
    ∷ CurrencyPair.btc_to_trx ∷ CurrencyPair.btc_to_aion ∷ CurrencyPair.btc_to_itc
    ∷ CurrencyPair.btc_to_ark ∷ CurrencyPair.btc_to_strat ∷ CurrencyPair.btc_to_lsk
    ∷ CurrencyPair.btc_to_eng ∷ CurrencyPair.btc_to_xvg ∷ CurrencyPair.btc_to_ont
    ∷ CurrencyPair.btc_to_hsr ∷ CurrencyPair.btc_to_zil ∷ CurrencyPair.btc_to_ven
    ∷ CurrencyPair.btc_to_elf ∷ CurrencyPair.btc_to_blz ∷ CurrencyPair.btc_to_req
    ∷ CurrencyPair.btc_to_link ∷ CurrencyPair.btc_to_nas ∷ CurrencyPair.btc_to_ela
    ∷ CurrencyPair.btc_to_nas ∷ CurrencyPair.btc_to_ela ∷ CurrencyPair.eth_to_dash
    ∷ CurrencyPair.eth_to_ltc ∷ CurrencyPair.eth_to_xrp ∷ CurrencyPair.eth_to_bcc
    ∷ CurrencyPair.eth_to_etc ∷ CurrencyPair.eth_to_sc ∷ CurrencyPair.eth_to_dgb
    ∷ CurrencyPair.eth_to_xem ∷ CurrencyPair.eth_to_omg ∷ CurrencyPair.eth_to_zec
    ∷ CurrencyPair.eth_to_rep ∷ CurrencyPair.eth_to_xmr ∷ CurrencyPair.eth_to_neo
    ∷ CurrencyPair.eth_to_qtum ∷ CurrencyPair.eth_to_eos ∷ CurrencyPair.eth_to_iota
    ∷ CurrencyPair.eth_to_btg ∷ CurrencyPair.eth_to_wtc ∷ CurrencyPair.eth_to_knc
    ∷ CurrencyPair.eth_to_bat ∷ CurrencyPair.eth_to_zrx ∷ CurrencyPair.eth_to_rdn
    ∷ CurrencyPair.eth_to_gas ∷ CurrencyPair.eth_to_ada ∷ CurrencyPair.eth_to_rcn
    ∷ CurrencyPair.eth_to_qsp ∷ CurrencyPair.eth_to_xby ∷ CurrencyPair.eth_to_pac
    ∷ CurrencyPair.eth_to_rdd ∷ CurrencyPair.eth_to_icx ∷ CurrencyPair.eth_to_wabi
    ∷ CurrencyPair.eth_to_xlm ∷ CurrencyPair.eth_to_trx ∷ CurrencyPair.eth_to_aion
    ∷ CurrencyPair.eth_to_itc ∷ CurrencyPair.eth_to_ark ∷ CurrencyPair.eth_to_strat
    ∷ CurrencyPair.eth_to_lsk ∷ CurrencyPair.eth_to_eng ∷ CurrencyPair.eth_to_xvg
    ∷ CurrencyPair.eth_to_ont ∷ CurrencyPair.eth_to_hsr ∷ CurrencyPair.eth_to_zil
    ∷ CurrencyPair.eth_to_ven ∷ CurrencyPair.eth_to_elf ∷ CurrencyPair.eth_to_blz
    ∷ CurrencyPair.eth_to_req ∷ CurrencyPair.eth_to_link ∷ CurrencyPair.eth_to_nas
    ∷ CurrencyPair.eth_to_ela ∷ CurrencyPair.usd_to_dash ∷ CurrencyPair.usd_to_btc
    ∷ CurrencyPair.usd_to_ltc ∷ CurrencyPair.usd_to_xrp ∷ CurrencyPair.usd_to_bcc
    ∷ CurrencyPair.usd_to_etc ∷ CurrencyPair.usd_to_eth ∷ CurrencyPair.usd_to_zec
    ∷ CurrencyPair.usd_to_rep ∷ CurrencyPair.usd_to_xmr ∷ CurrencyPair.usdt_to_dash
    ∷ CurrencyPair.usdt_to_eth ∷ CurrencyPair.usdt_to_ltc ∷ CurrencyPair.usdt_to_xrp
    ∷ CurrencyPair.usdt_to_bcc ∷ CurrencyPair.usdt_to_etc ∷ CurrencyPair.usdt_to_sc
    ∷ CurrencyPair.usdt_to_dgb ∷ CurrencyPair.usdt_to_xem ∷ CurrencyPair.usdt_to_ardr
    ∷ CurrencyPair.usdt_to_btc ∷ CurrencyPair.usdt_to_zec ∷ CurrencyPair.usdt_to_rep
    ∷ CurrencyPair.usdt_to_xmr ∷ CurrencyPair.usdt_to_neo ∷ CurrencyPair.usdt_to_qtum
    ∷ CurrencyPair.usdt_to_eos ∷ CurrencyPair.usdt_to_iota ∷ CurrencyPair.usdt_to_btg
    ∷ CurrencyPair.usdt_to_wtc ∷ CurrencyPair.usdt_to_knc ∷ CurrencyPair.usdt_to_bat
    ∷ CurrencyPair.usdt_to_zrx ∷ CurrencyPair.usdt_to_rdn ∷ CurrencyPair.usdt_to_gas
    ∷ CurrencyPair.usdt_to_ada ∷ CurrencyPair.usdt_to_rcn ∷ CurrencyPair.usdt_to_qsp
    ∷ CurrencyPair.usdt_to_xby ∷ CurrencyPair.usdt_to_pac ∷ CurrencyPair.usdt_to_rdd
    ∷ CurrencyPair.usdt_to_icx ∷ CurrencyPair.usdt_to_wabi ∷ CurrencyPair.usdt_to_xlm
    ∷ CurrencyPair.usdt_to_trx ∷ CurrencyPair.usdt_to_aion ∷ CurrencyPair.usdt_to_itc
    ∷ CurrencyPair.usdt_to_xvg ∷ CurrencyPair.usdt_to_omg ∷ CurrencyPair.usdt_to_hsr
    ∷ CurrencyPair.usdt_to_zil ∷ CurrencyPair.usdt_to_ven ∷ CurrencyPair.usdt_to_elf
    ∷ CurrencyPair.usdt_to_nas ∷ CurrencyPair.usdt_to_ela ∷ CurrencyPair.usd_to_usdt ∷ []
